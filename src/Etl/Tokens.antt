-- ===== src/Etl/Tokens.antt =====
-- backend/etl/tokens.py: the estimate of the number of tokens of a text.
use lumina_ai.Prelude.{
  ℕ, ◌+◌, ◌*◌, ◌/◌, ◌-◌, ◌≤◌, ◌≡◌, Bool, ◌||◌, ◌&&◌, [], ◌∷◌, ◌++◌, arith, leb, length,
  if◌then◌else◌, length-append,
}
use lumina_ai.Prelude.Texts.{Text}

-- `_CJK_RANGES`.
unfoldable pub is_cjk : ℕ → Bool
is_cjk c =
    (leb 0x3000 c && leb c 0x303f)
    || (leb 0x3040 c && leb c 0x30ff)
    || (leb 0x3400 c && leb c 0x4dbf)
    || (leb 0x4e00 c && leb c 0x9fff)
    || (leb 0xac00 c && leb c 0xd7af)
    || (leb 0xf900 c && leb c 0xfaff)
    || (leb 0xff00 c && leb c 0xffef)

abbrev pub chars_per_token : ℕ
chars_per_token = 4

pub count_cjk : Text → ℕ
count_cjk [] = 0
count_cjk (c ∷ t) = (if is_cjk c then 1 else 0) + count_cjk t

-- The other characters count a quarter each, rounded up; an empty text counts 0 either way.
unfoldable pub estimate_tokens : Text → ℕ
unfolding count_cjk is_cjk
estimate_tokens t =
    let cjk = count_cjk t in cjk + (length t - cjk + (chars_per_token - 1)) / chars_per_token

pub count_cjk-le : (t : Text) → count_cjk t ≤ length t
unfolding count_cjk
count_cjk-le [] = omega arith
count_cjk-le (c ∷ t) = ground (arith, count_cjk-le t)

count_cjk-append : (t u : Text) → count_cjk (t ++ u) ≡ count_cjk t + count_cjk u
unfolding count_cjk
count_cjk-append [] u = omega arith
count_cjk-append (c ∷ t) u = omega (arith, count_cjk-append t u)

-- The estimate lies between a quarter of the characters and all of them; that of a joined text is
-- at least that of each part, and at most their sum.
pub estimate_tokens_bounds :
    (t u : Text)
    → (length t ≤ chars_per_token * estimate_tokens t)
      × (estimate_tokens t ≤ length t)
      × (estimate_tokens t ≤ estimate_tokens (t ++ u))
      × (estimate_tokens (t ++ u) ≤ estimate_tokens t + estimate_tokens u)
unfolding estimate_tokens
estimate_tokens_bounds t u =
    let a = count_cjk-le t in
    let b = count_cjk-le u in
    let c = count_cjk-append t u in let d = length-append t u in omega (arith, a, b, c, d)
