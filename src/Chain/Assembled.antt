-- ===== src/Chain/Assembled.antt =====
-- The members of an event as `buildChainEvents` assembles it.
use capsules_protocol.Json.{
  Value, null, bool, num, str, arr, obj, Items, nil, Fields, end, of_ℕ, get, spread, at,
}
use capsules_protocol.Json.Laws.{Distinct, or_else, get-spread, get-set_ne, get-set_self}
use capsules_protocol.Bytes.{Bytes, to_hex}
use capsules_protocol.Chain.{is_valid_untrusted_payload_path, strip, is_path_tail, is_segments}
use capsules_protocol.Chain.Build.{
  with_default, with_markings, marking, candidates, start, linked, with_payload, assemble,
}
use capsules_protocol.Chain.Walk.{markings_errors}
use capsules_protocol.Prelude.{
  Str, codes, str_eq, ℕ, ◌+◌, ◌≡◌, refl, ap, ◌∙◌, false, Option, none, some, [],
}

abbrev pub markings_key : Str
markings_key = codes "untrusted_payload_fields"

get-with_default :
    (v : Option Value) (o : Fields) (k j : Str) (d : Value)
    → str_eq k j ≡ false
    → get (with_default v o k d) j ≡ get o j
get-with_default none o k j d h = get-set_ne o k j d h
get-with_default (some v) o k j d h = refl

get-with_markings :
    (v : Option Value) (o : Fields) (j : Str)
    → str_eq markings_key j ≡ false
    → get (with_markings v o) j ≡ get o j
get-with_markings (some (arr xs)) o j h = refl
get-with_markings none o j h = get-set_ne o markings_key j _ h
get-with_markings (some null) o j h = get-set_ne o markings_key j _ h
get-with_markings (some (num n)) o j h = get-set_ne o markings_key j _ h
get-with_markings (some (str s)) o j h = get-set_ne o markings_key j _ h
get-with_markings (some (obj x)) o j h = get-set_ne o markings_key j _ h
get-with_markings (some (bool b)) o j h = get-set_ne o markings_key j _ h

get-with_payload :
    (o : Fields) (j : Str) → str_eq (codes "payload") j ≡ false → get (with_payload o) j ≡ get o j
unfolding with_payload
get-with_payload o j h =
    get-with_default (get o (codes "payload")) o (codes "payload") j (obj end) h

-- A member that assembling an event does not touch.
pub get-assemble :
    (i : ℕ) (prev : Bytes) (bare : Fields) (j : Str)
    → str_eq markings_key j ≡ false
    → str_eq (codes "payload") j ≡ false
    → get (assemble i prev bare) j ≡ get (linked i prev bare) j
unfolding assemble
get-assemble i prev bare j m p =
    let e = with_payload (linked i prev bare) in
    get-with_markings (get e markings_key) e j m ∙ get-with_payload (linked i prev bare) j p

pub get-linked :
    (i : ℕ) (prev : Bytes) (bare : Fields) (j : Str)
    → str_eq (codes "prev_hash") j ≡ false
    → Distinct bare
    → get (linked i prev bare) j ≡ or_else (get bare j) (get (start i bare) j)
unfolding linked
get-linked i prev bare j h d =
    get-set_ne (spread (start i bare) bare) (codes "prev_hash") j (str (to_hex prev)) h
    ∙ get-spread (start i bare) bare j d

pub or_else-none : (o : Option Value) → or_else o none ≡ o
or_else-none none = refl
or_else-none (some v) = refl

module _ (i : ℕ) (prev : Bytes) (bare : Fields) (d : Distinct bare) where
  pub kind_kept : get (assemble i prev bare) (codes "kind") ≡ get bare (codes "kind")
  unfolding str_eq get
  kind_kept =
      get-assemble i prev bare (codes "kind") refl refl
      ∙ get-linked i prev bare (codes "kind") refl d
      ∙ or_else-none (get bare (codes "kind"))

  pub actor_kept : get (assemble i prev bare) (codes "actor") ≡ get bare (codes "actor")
  unfolding str_eq get
  actor_kept =
      get-assemble i prev bare (codes "actor") refl refl
      ∙ get-linked i prev bare (codes "actor") refl d
      ∙ or_else-none (get bare (codes "actor"))

  pub seq_given :
      get bare (codes "seq") ≡ none → get (assemble i prev bare) (codes "seq") ≡ some (of_ℕ (i + 1))
  unfolding str_eq get
  seq_given h =
      get-assemble i prev bare (codes "seq") refl refl
      ∙ get-linked i prev bare (codes "seq") refl d
      ∙ ap (λ o. or_else o (some (of_ℕ (i + 1)))) h

  pub prev_given : get (assemble i prev bare) (codes "prev_hash") ≡ some (str (to_hex prev))
  unfolding str_eq linked
  prev_given =
      get-assemble i prev bare (codes "prev_hash") refl refl
      ∙ get-set_self (spread (start i bare) bare) (codes "prev_hash") (str (to_hex prev))

  pub markings_before : get (with_payload (linked i prev bare)) markings_key ≡ get bare markings_key
  unfolding str_eq get
  markings_before =
      get-with_payload (linked i prev bare) markings_key refl
      ∙ get-linked i prev bare markings_key refl d
      ∙ or_else-none (get bare markings_key)

marking_valid :
    (a b : Option Value)
    → markings_errors (some (arr (marking a "payload.summary" (marking b "payload.statement" nil))))
      ≡ []
unfolding markings_errors is_valid_untrusted_payload_path strip is_path_tail is_segments
marking_valid (some (str s)) (some (str t)) = refl
marking_valid (some (str s)) _ = refl
marking_valid _ (some (str t)) = refl
marking_valid _ _ = refl

candidates_valid : (q : Option Value) → markings_errors (some (arr (candidates q))) ≡ []
unfolding candidates
candidates_valid q = marking_valid (at q (codes "summary")) (at q (codes "statement"))

markings_default : (o : Fields) → markings_errors (get (with_markings none o) markings_key) ≡ []
markings_default o =
    ap markings_errors (get-set_self o markings_key (arr (candidates (get o (codes "payload")))))
    ∙ candidates_valid (get o (codes "payload"))

abbrev pub MarkingsValid : Option Value → Type 0
MarkingsValid m = (xs : Items) → m ≡ some (arr xs) → markings_errors (some (arr xs)) ≡ []

pub markings_written :
    (m : Option Value) (o : Fields)
    → get o markings_key ≡ m
    → MarkingsValid m
    → markings_errors (get (with_markings m o) markings_key) ≡ []
markings_written (some (arr xs)) o e h = ap markings_errors e ∙ h xs refl
markings_written _ o e h = markings_default o
