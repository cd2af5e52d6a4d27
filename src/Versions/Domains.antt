-- ===== src/Versions/Domains.antt =====
-- The domain strings of versions.js, as beginnings of messages.
use capsules_protocol.Bytes.{Bytes, utf8, encode_from}
use capsules_protocol.Bytes.Utf8.{
  IsAscii, NulFree, utf8-ascii, utf8-NulFree, utf8-nul, nul_cut, append_cancel,
}
use capsules_protocol.Versions.{id_domain, provenance_domain}
use capsules_protocol.Prelude.{
  Str, codes, All, ℕ, ◌≤◌, ◌<◌, ◌≡◌, sym, ap, ◌∙◌, ◌≢◌, List, [], ◌∷◌, ◌++◌, append_assoc, arith,
}

-- The characters of a version string: digits and full stops.
abbrev pub IsVersionText : Str → Type 0
IsVersionText = All (λ c. (b'.' ≤ c) × (c < b':'))

text-IsAscii : (v : Str) → IsVersionText v → IsAscii v
text-IsAscii [] h = tt
text-IsAscii (c ∷ v) (hc, hv) = (omega arith, text-IsAscii v hv)

-- The text before the first colon is determined, and so is the rest.
colon_cut :
    (a b s t : List ℕ)
    → IsVersionText a
    → IsVersionText b
    → (a ++ b':' ∷ s) ≡ (b ++ b':' ∷ t)
    → (a ≡ b) × (s ≡ t)
colon_cut [] [] s t ha hb e = ground arith
colon_cut [] (y ∷ b) s t ha hb e = ground arith
colon_cut (x ∷ a) [] s t ha hb e = ground arith
colon_cut (x ∷ a) (y ∷ b) s t ha hb e = ground (arith, colon_cut a b s t ha.1 hb.1)

abbrev provenance_prefix : Str
provenance_prefix = codes "capsule-provenance-v"

provenance_bytes :
    (v r : Str) (p : Bytes)
    → IsVersionText v
    → provenance_domain v r ++ p ≡ provenance_prefix ++ (v ++ b':' ∷ (utf8 r ++ 0 ∷ p))
unfolding provenance_domain utf8 encode_from
provenance_bytes v r p h =
    ap (λ (s : Bytes). s ++ p)
      (utf8-ascii provenance_prefix (v ++ b':' ∷ (r ++ 0 ∷ [])) (omega arith)
        ∙ ap (λ (s : Bytes). provenance_prefix ++ s)
            (utf8-ascii v (b':' ∷ (r ++ 0 ∷ [])) (text-IsAscii v h))
        ∙ ap (λ (s : Bytes). provenance_prefix ++ (v ++ s))
            (utf8-ascii (b':' ∷ []) (r ++ 0 ∷ []) (omega arith))
        ∙ ap (λ (s : Bytes). provenance_prefix ++ (v ++ b':' ∷ s)) (utf8-nul r []))
    ∙ append_assoc provenance_prefix (v ++ b':' ∷ (utf8 r ++ 0 ∷ [])) p
    ∙ ap (λ (s : Bytes). provenance_prefix ++ s)
        (append_assoc v (b':' ∷ (utf8 r ++ 0 ∷ [])) p
          ∙ ap (λ (s : Bytes). v ++ b':' ∷ s) (append_assoc (utf8 r) (0 ∷ []) p))

-- Two signing inputs that are equal name the same era, the same role and the same payload: with
-- versions of digits and full stops and roles without NUL, the domain string separates them.
pub provenance_domain_separates :
    (v w r q : Str) (p m : Bytes)
    → IsVersionText v
    → IsVersionText w
    → NulFree r
    → NulFree q
    → provenance_domain v r ++ p ≡ provenance_domain w q ++ m
    → (v ≡ w) × (utf8 r ≡ utf8 q) × (p ≡ m)
provenance_domain_separates v w r q p m hv hw hr hq e =
    let whole = sym (provenance_bytes v r p hv) ∙ e ∙ provenance_bytes w q m hw in
    let (same_version, rest) =
      colon_cut v w (utf8 r ++ 0 ∷ p) (utf8 q ++ 0 ∷ m) hv hw
        (append_cancel provenance_prefix _ _ whole) in
    let (same_role, same_payload) =
      nul_cut (utf8 r) (utf8 q) p m (utf8-NulFree r hr) (utf8-NulFree q hq) rest in
    (same_version, same_role, same_payload)

id_bytes :
    (v : Str) (p : Bytes)
    → IsVersionText v
    → id_domain v ++ p ≡ codes "capsule-id-v" ++ (v ++ 0 ∷ p)
unfolding id_domain utf8 encode_from
id_bytes v p h =
    ap (λ (s : Bytes). s ++ p)
      (utf8-ascii (codes "capsule-id-v") (v ++ 0 ∷ []) (omega arith)
        ∙ ap (λ (s : Bytes). codes "capsule-id-v" ++ s) (utf8-ascii v (0 ∷ []) (text-IsAscii v h))
        ∙ ap (λ (s : Bytes). codes "capsule-id-v" ++ (v ++ s)) (utf8-nul [] []))
    ∙ ap (λ (s : Bytes). codes "capsule-id-v" ++ s) (append_assoc v (0 ∷ []) p)

abbrev first : List ℕ → ℕ
first [] = 0
first (c ∷ s) = c

version-NulFree : (v : Str) → IsVersionText v → NulFree v
version-NulFree [] h = tt
version-NulFree (c ∷ v) (hc, hv) = (omega arith, version-NulFree v hv)

-- Identities of two eras are hashes of different messages, and never of a message that is signed.
pub id_domain_separates :
    (v w r : Str) (p m : Bytes)
    → IsVersionText v
    → IsVersionText w
    → (id_domain v ++ p ≡ id_domain w ++ m → (v ≡ w) × (p ≡ m))
      × (id_domain v ++ p ≢ provenance_domain w r ++ m)
id_domain_separates v w r p m hv hw = (
  λ e.
      nul_cut v w p m (version-NulFree v hv) (version-NulFree w hw)
        (append_cancel (codes "capsule-id-v") _ _ (sym (id_bytes v p hv) ∙ e ∙ id_bytes w m hw)),
  λ e.
      let same = sym (id_bytes v p hv) ∙ e ∙ provenance_bytes w r m hw in
      absurd (omega (arith, ap first (append_cancel (codes "capsule-") _ _ same))),
)
