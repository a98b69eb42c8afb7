-- ===== src/Bytes.antt =====
-- Memory as a function of the address: single stores and the writing of texts (PUT_STRING_WIDTH,
-- put_string_size and the copies of fixed width in string/string_utils.h).
use mysql_seed.Prelude.{
  ℕ, zero, suc, ◌+◌, ◌≤◌, ◌<◌, ◌≡◌, ◌≢◌, refl, ap₂, ◌∙◌, List, [], ◌∷◌, arith, ◌==◌, if◌then◌else◌,
  eq→==, ne→==, length,
}

abbrev pub Buffer : Type 0
Buffer = ℕ → ℕ

unfoldable pub store : Buffer → ℕ → ℕ → Buffer
store buffer a v b = if b == a then v else buffer b

pub store-same : (buffer : Buffer) (a v : ℕ) → store buffer a v a ≡ v
unfolding store
store-same buffer a v = rw (eq→== a a refl) refl

pub store-other : (buffer : Buffer) (a v b : ℕ) → b ≢ a → store buffer a v b ≡ buffer b
unfolding store
store-other buffer a v b h = rw (ne→== b a h) refl

-- the bytes of a text, from an address on
unfoldable pub put : Buffer → ℕ → List ℕ → Buffer
put buffer a [] = buffer
put buffer a (c ∷ cs) = put (store buffer a c) (suc a) cs

unfoldable pub bytes : Buffer → ℕ → ℕ → List ℕ
bytes buffer a zero = []
bytes buffer a (suc n) = buffer a ∷ bytes buffer (suc a) n

pub put-before :
    (buffer : Buffer) (a : ℕ) (cs : List ℕ) (b : ℕ) → b < a → put buffer a cs b ≡ buffer b
unfolding put
put-before buffer a [] b h = refl
put-before buffer a (c ∷ cs) b h =
    put-before (store buffer a c) (suc a) cs b (omega arith)
    ∙ store-other buffer a c b (omega arith)

pub put-behind :
    (buffer : Buffer) (a : ℕ) (cs : List ℕ) (b : ℕ)
    → a + length cs ≤ b
    → put buffer a cs b ≡ buffer b
unfolding put
put-behind buffer a [] b h = refl
put-behind buffer a (c ∷ cs) b h =
    put-behind (store buffer a c) (suc a) cs b (omega arith)
    ∙ store-other buffer a c b (omega arith)

pub bytes-put : (buffer : Buffer) (a : ℕ) (cs : List ℕ) → bytes (put buffer a cs) a (length cs) ≡ cs
unfolding put bytes
bytes-put buffer a [] = refl
bytes-put buffer a (c ∷ cs) =
    ap₂ ◌∷◌ (put-before (store buffer a c) (suc a) cs a (omega arith) ∙ store-same buffer a c)
      (bytes-put (store buffer a c) (suc a) cs)

pub bytes-same :
    (buffer buffer' : Buffer) (a n : ℕ)
    → ((b : ℕ) → a ≤ b → b < a + n → buffer' b ≡ buffer b)
    → bytes buffer' a n ≡ bytes buffer a n
unfolding bytes
bytes-same buffer buffer' a zero h = refl
bytes-same buffer buffer' a (suc n) h =
    ap₂ ◌∷◌ (h a (omega arith) (omega arith))
      (bytes-same buffer buffer' (suc a) n (λ b p q. h b (omega arith) (omega arith)))
