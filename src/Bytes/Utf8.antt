-- ===== src/Bytes/Utf8.antt =====
-- What the domain strings need of UTF-8: ASCII prefixes are kept, and NUL comes only from NUL.
use capsules_protocol.Bytes.{Bytes, encode_unit, encode_pair, emit, pend, encode_from, utf8}
use capsules_protocol.Prelude.{
  Str, All, All-append, ℕ, ◌<◌, ◌≡◌, refl, sym, ap, ◌∙◌, Option, none, some, List, [], ◌∷◌, ◌++◌,
  append_assoc, arith,
}

abbrev pub IsAscii : Str → Type 0
IsAscii = All (λ c. c < 128)

abbrev pub NulFree : List ℕ → Type 0
NulFree = All (λ c. 0 < c)

pub utf8-ascii : (a s : Str) → IsAscii a → utf8 (a ++ s) ≡ a ++ utf8 s
unfolding utf8 encode_from emit encode_unit
utf8-ascii [] s h = refl
utf8-ascii (c ∷ a) s (hc, ha) = ground (arith, utf8-ascii a s ha)

emit-NulFree : (p : Option ℕ) (c : ℕ) → 0 < c → NulFree (emit p c)
unfolding emit encode_unit encode_pair
emit-NulFree none c h = ground arith
emit-NulFree (some p) c h = ground arith

encode_from-NulFree : (p : Option ℕ) (s : Str) → NulFree s → NulFree (encode_from p s)
unfolding encode_from
encode_from-NulFree none [] h = tt
encode_from-NulFree (some p) [] h = omega arith
encode_from-NulFree p (c ∷ s) (hc, hs) =
    All-append _ (emit p c) _ (emit-NulFree p c hc) (encode_from-NulFree (pend c) s hs)

pub utf8-NulFree : (s : Str) → NulFree s → NulFree (utf8 s)
unfolding utf8
utf8-NulFree s h = encode_from-NulFree none s h

-- The text before the first NUL is determined, and so is the rest.
pub nul_cut :
    (a b s t : List ℕ) → NulFree a → NulFree b → (a ++ 0 ∷ s) ≡ (b ++ 0 ∷ t) → (a ≡ b) × (s ≡ t)
nul_cut [] [] s t ha hb e = ground arith
nul_cut [] (y ∷ b) s t ha hb e = ground arith
nul_cut (x ∷ a) [] s t ha hb e = ground arith
nul_cut (x ∷ a) (y ∷ b) s t ha hb e = ground (arith, nul_cut a b s t ha.1 hb.1)

pub append_cancel : (p s t : List ℕ) → (p ++ s) ≡ (p ++ t) → s ≡ t
append_cancel [] s t e = e
append_cancel (c ∷ p) s t e = append_cancel p s t (cc)

encode_from-nul :
    (p : Option ℕ) (r s : Str)
    → encode_from p (r ++ 0 ∷ s) ≡ encode_from p r ++ 0 ∷ encode_from none s
unfolding encode_from emit encode_unit
encode_from-nul none [] s = refl
encode_from-nul (some h) [] s = refl
encode_from-nul p (c ∷ r) s =
    ap (λ (t : Bytes). emit p c ++ t) (encode_from-nul (pend c) r s)
    ∙ sym (append_assoc (emit p c) (encode_from (pend c) r) (0 ∷ encode_from none s))

-- A NUL is written as a NUL, and ends whatever stands before it.
pub utf8-nul : (r s : Str) → utf8 (r ++ 0 ∷ s) ≡ utf8 r ++ 0 ∷ utf8 s
unfolding utf8
utf8-nul r s = encode_from-nul none r s
