-- ===== src/Verifier/Gates.antt =====
-- The gates and stages of `verifyCapsuleInner`, read back from its report.
use capsules_protocol.Json.{Value, null, bool, num, str, arr, obj, Items, Fields, get, at}
use capsules_protocol.Platform.{Platform}
use capsules_protocol.Versions.{
  VersionStatus, known, unknown_newer, unknown_older, invalid, VersionClass, classify_version,
}
use capsules_protocol.Profiles.{classify_profile}
use capsules_protocol.Manifest.{Files}
use capsules_protocol.Envelope.Verify.{SignatureResult, verify_envelope_signatures}
use capsules_protocol.Verifier.{
  VerifyError, bad_manifest_version, bad_envelope_version, unsupported_manifest_version,
  unsupported_envelope_version, versions_differ, unless, same, is_text,
}
use capsules_protocol.Verifier.Index.{ContentProblem, listed_files, content_problems}
use capsules_protocol.Verifier.Signers.{distinct_count}
use capsules_protocol.Verifier.Verdict.{
  Verdict, HopStatus, valid_capsule, Facts, verdict_of, derive_verdict,
}
use capsules_protocol.Verifier.Messages.{messages_print}
use capsules_protocol.Verifier.Stages.{Options, chain_stage, participants_errors}
use capsules_protocol.Verifier.Capsule.{
  Report, refuse, refused_facts, stage_errors, conclude, evaluate, profile_errors, profile_gate,
  envelope_gate, verify_capsule,
}
use capsules_protocol.Prelude.{
  Bool-cases, Option-cases, &&_both, Str, codes, str_eq_sound, is_nil, ℕ, ◌≡◌, refl, ap, inl, inr,
  Bool, true, false, ◌&&◌, Option, none, some, List, [], ◌∷◌, ◌++◌, arith,
}

abbrev pub IsValid : Report → Type 0
IsValid r = r.surface.verdict ≡ valid_capsule

pub is_text_sound : (v : Option Value) (s : Str) → is_text v s ≡ true → v ≡ some (str s)
unfolding same
is_text_sound none s h = cc
is_text_sound (some null) s h = cc
is_text_sound (some (bool b)) s h = cc
is_text_sound (some (num n)) s h = cc
is_text_sound (some (str t)) s h = ap (λ x. some (str x)) (str_eq_sound t s h)
is_text_sound (some (arr vs)) s h = cc
is_text_sound (some (obj o)) s h = cc

pub unless_nil : (b : Bool) (e : VerifyError) → unless b e ≡ [] → b ≡ true
unless_nil b e h = ground arith

valid-is_ok :
    (refusal : Option VersionStatus) (size : Option ℕ) (f : Facts)
    → (derive_verdict refusal size f).verdict ≡ valid_capsule
    → f.is_ok ≡ true
unfolding derive_verdict verdict_of
valid-is_ok refusal size f h = ground arith

not_refused :
    (o : Options) (m : Fields) (refusal : Option VersionStatus) (s : VersionStatus) (b : Bool)
    (errors : List VerifyError) (r : Report)
    → refuse o m refusal s b errors ≡ some r
    → IsValid r
    → ⊥
not_refused o m refusal s b errors r h v =
    let f = valid-is_ok refusal none (refused_facts o m (some s) b) (ground arith) in ground arith

profile_passed :
    (p : Platform) (o : Options) (m e : Fields) (fs : Files) (version : Str) (r : Report)
    → profile_gate p o m e fs version ≡ some r
    → IsValid r
    → evaluate p o m e fs version ≡ some r
unfolding profile_gate
profile_passed p o m e fs version r h v =
    let c =
      classify_profile (at (get m (codes "format")) (codes "profile")) (get e (codes "profile")) in
    let errors = participants_errors (get m (codes "participants")) ++ profile_errors c in
    ground
      (arith, not_refused o m none known false errors r, not_refused o m none known true errors r)

pub envelope_passed :
    (p : Platform) (o : Options) (m e : Fields) (fs : Files) (version : Str) (r : Report)
    → envelope_gate p o m e fs version ≡ some r
    → IsValid r
    → (is_text (get e (codes "version")) version ≡ true) × (evaluate p o m e fs version ≡ some r)
unfolding envelope_gate
envelope_passed p o m e fs version r h v =
    let start = participants_errors (get m (codes "participants")) in
    let gates : (is_text (get e (codes "version")) version ≡ true)
        × (profile_gate p o m e fs version ≡ some r) =
      ground (
        arith,
        not_refused o m none known false (start ++ bad_envelope_version ∷ []) r,
        not_refused o m none known false (start ++ versions_differ ∷ []) r,
        not_refused o m (some unknown_newer) known false
            (start ++ unsupported_envelope_version ∷ []) r,
        not_refused o m (some unknown_older) known false
            (start ++ unsupported_envelope_version ∷ []) r,
      ) in
    (gates.0, profile_passed p o m e fs version r gates.1 v)

abbrev pub manifest_class : Fields → VersionClass
manifest_class m = classify_version (at (get m (codes "format")) (codes "version"))

pub manifest_passed :
    (p : Platform) (o : Options) (m e : Fields) (fs : Files) (r : Report)
    → verify_capsule p o m e fs ≡ some r
    → IsValid r
    → (version : Str) × ((manifest_class m).status ≡ known)
      × ((manifest_class m).observed ≡ some version)
      × (envelope_gate p o m e fs version ≡ some r)
unfolding verify_capsule
manifest_passed p o m e fs r h v =
    let start = participants_errors (get m (codes "participants")) in
    elim (Option-cases ((manifest_class m).observed)) [
      | inl n ↦ absurd (
          ground (
            arith,
            n,
            not_refused o m none invalid false (start ++ bad_manifest_version ∷ []) r,
            not_refused o m none unknown_newer false (start ++ unsupported_manifest_version ∷ []) r,
            not_refused o m none unknown_older false (start ++ unsupported_manifest_version ∷ []) r,
          ))
      | inr (version, n) ↦
          let gates : ((manifest_class m).status ≡ known)
              × (envelope_gate p o m e fs version ≡ some r) =
            ground (
              arith,
              n,
              not_refused o m none invalid false (start ++ bad_manifest_version ∷ []) r,
              not_refused o m none unknown_newer false (start ++ unsupported_manifest_version ∷ [])
                  r,
              not_refused o m none unknown_older false (start ++ unsupported_manifest_version ∷ [])
                  r,
            ) in
          (version, gates.0, n, gates.1)
    ]

-- What the stages behind the gates gave.
pub record Concluded (p : Platform) (o : Options) (m e : Fields) (fs : Files) (version : Str)
    (r : Report) : Type 0 where
  pub content : List ContentProblem
  pub indexed : Items
  pub result : SignatureResult
  pub of_content : content_problems p m e fs ≡ some content
  pub of_listed : listed_files m ≡ some indexed
  pub of_signatures : verify_envelope_signatures p e ≡ some result
  pub hops : List HopStatus
  pub of_report : some (conclude p o m e fs version indexed content result hops) ≡ some r

pub evaluated :
    (p : Platform) (o : Options) (m e : Fields) (fs : Files) (version : Str) (r : Report)
    → evaluate p o m e fs version ≡ some r
    → Concluded p o m e fs version r
unfolding evaluate
evaluated p o m e fs version r h = elim (Option-cases (content_problems p m e fs)) [
  | inl n ↦ absurd (ground (arith, n))
  | inr (content, hc) ↦ elim (Option-cases (listed_files m)) [
    | inl n ↦ absurd (ground (arith, hc, n))
    | inr (indexed, hi) ↦ elim (Option-cases (verify_envelope_signatures p e)) [
      | inl n ↦ absurd (ground (arith, hc, hi, n))
      | inr (s, hs) ↦ elim (Option-cases o.hops) [
        | inl n ↦ absurd (ground (arith, hc, hi, hs, n))
        | inr (hops, hh) ↦ elim (Bool-cases (messages_print p o m e fs s)) [
          | inr f ↦ absurd (ground (arith, hc, hi, hs, hh, f))
          | inl t ↦ record {
            content = content;
            indexed = indexed;
            result = s;
            of_content = hc;
            of_listed = hi;
            of_signatures = hs;
            hops = hops;
            of_report = ground (arith, hc, hi, hs, hh, t);
          }
        ]
      ]
    ]
  ]
]

pub is_nil_sound {ℓ} : {A : Type ℓ} (l : List A) → is_nil l ≡ true → l ≡ []
is_nil_sound [] h = refl
is_nil_sound (x ∷ l) h = cc

abbrev verdict_in : Option Report → Option Verdict
verdict_in none = none
verdict_in (some r) = some r.surface.verdict

pub all_passed :
    (p : Platform) (o : Options) (m e : Fields) (fs : Files) (version : Str) (r : Report)
    (c : Concluded p o m e fs version r)
    → IsValid r
    → (stage_errors p o m e fs version c.indexed (chain_stage p o m e fs) c.result ≡ [])
      × (c.content ≡ [])
      × ((chain_stage p o m e fs).walked_ok ≡ true)
      × (c.result.ok ≡ true)
unfolding conclude
all_passed p o m e fs version r c v =
    let made = conclude p o m e fs version c.indexed c.content c.result c.hops in
    let own : IsValid made = ground (arith, ap verdict_in c.of_report) in
    let good = valid-is_ok none (some (distinct_count o.allowlist)) made.facts own in
    let errors = stage_errors p o m e fs version c.indexed (chain_stage p o m e fs) c.result in
    let (a, rest) =
      &&_both (is_nil errors)
        (is_nil c.content && ((chain_stage p o m e fs).walked_ok && c.result.ok)) good in
    let (b, last) =
      &&_both (is_nil c.content) ((chain_stage p o m e fs).walked_ok && c.result.ok) rest in
    let (w, k) = &&_both ((chain_stage p o m e fs).walked_ok) c.result.ok last in
    (is_nil_sound errors a, is_nil_sound c.content b, w, k)
