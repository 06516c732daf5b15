-- ===== src/Http/Query.antt =====
-- `WebSocketQuery::get_event_types` of src/http/types.rs.
mod Tests
use sms_server.Base.{
  ℕ, zero, suc, ◌≡◌, refl, sym, ◌∙◌, ap, Bool, true, false, ◌||◌, List, [], ◌∷◌, Option, none, some,
  arith, length, ◌==◌, ==_iff, Bool-cases, Option-cases, inl, inr, if◌then◌else◌, Text,
}
use sms_server.Text.{codes, equal, split, trim}
use sms_server.Events.{EventTypes, IsLawful, member, Distinct}
use sms_server.Http.WebSocket.Delivery.{subscribes}

module _ (e : EventTypes) where
  abbrev keep_some : Option (e.EventKind) → List (e.EventKind) → List (e.EventKind)
  keep_some none ks = ks
  keep_some (some k) ks = k ∷ ks

  -- `filter_map` over the pieces
  abbrev parse_kinds : List Text → List (e.EventKind)
  parse_kinds [] = []
  parse_kinds (s ∷ ss) = keep_some (e.try_from (trim s)) (parse_kinds ss)

  -- A `HashSet` and back: each kind once. The order, which a set forgets, is that of the list.
  abbrev dedupe : List (e.EventKind) → List (e.EventKind)
  dedupe [] = []
  dedupe (k ∷ ks) = let rest = dedupe ks in if member e k rest then rest else k ∷ rest

  -- None or all of the kinds are no filter.
  abbrev unless_trivial : List (e.EventKind) → Option (List (e.EventKind))
  unless_trivial events =
      if length events == 0 || length events == e.count then none else some events

  unfoldable pub get_event_types : Option Text → Option (List (e.EventKind))
  get_event_types none = none
  get_event_types (some events_str) =
      if equal events_str (codes "*")
      then none
      else unless_trivial (dedupe (parse_kinds (split 44 events_str)))

  -- What a query asks for, kind by kind: every kind if it names none that is valid.
  abbrev pub accepts : Option Text → e.EventKind → Bool
  accepts none k = true
  accepts (some s) k =
      let kinds = parse_kinds (split 44 s) in
      equal s (codes "*") || length kinds == 0 || member e k kinds

module _ (e : EventTypes) (lawful : IsLawful e) where
  member-dedupe :
      (k : e.EventKind) (ks : List (e.EventKind)) → member e k (dedupe e ks) ≡ member e k ks
  member-dedupe k [] = refl
  member-dedupe k (l ∷ ls) = elim (Bool-cases (member e l (dedupe e ls))) [
    | inr h ↦ rw (h, member-dedupe k ls) refl
    | inl h ↦
        rw (h, member-dedupe k ls)
          (elim (Bool-cases (e.same l k)) [
            | inr q ↦ rw q refl
            | inl q ↦ rw q (
                sym (member-dedupe k ls)
                ∙ ap (λ j. member e j (dedupe e ls)) (sym ((lawful.same_iff l k).0 q))
                ∙ h)
          ])
  ]

  dedupe-Distinct : (ks : List (e.EventKind)) → Distinct e (dedupe e ks)
  dedupe-Distinct [] = tt
  dedupe-Distinct (k ∷ ks) = elim (Bool-cases (member e k (dedupe e ks))) [
    | inl h ↦ rw h (dedupe-Distinct ks)
    | inr h ↦ rw h (h, dedupe-Distinct ks)
  ]

  member-length :
      (k : e.EventKind) (ks : List (e.EventKind)) → member e k ks ≡ true → (length ks == 0) ≡ false
  member-length k [] h = cc
  member-length k (l ∷ ls) h = ground arith

  length-dedupe-zero : (ks : List (e.EventKind)) → (length (dedupe e ks) == 0) ≡ (length ks == 0)
  length-dedupe-zero [] = refl
  length-dedupe-zero (k ∷ ks) = elim (Bool-cases (member e k (dedupe e ks))) [
    | inl h ↦ rw h (member-length k (dedupe e ks) h ∙ ground arith)
    | inr h ↦ rw h (ground arith)
  ]

  unless_trivial-subscribes :
      (ks : List (e.EventKind)) (k : e.EventKind)
      → Distinct e ks
      → subscribes e (unless_trivial e ks) k ≡ (length ks == 0 || member e k ks)
  unless_trivial-subscribes ks k d = elim (Bool-cases (length ks == 0)) [
    | inl h ↦ rw h refl
    | inr h ↦ elim (Bool-cases (length ks == e.count)) [
      | inl q ↦ rw (h, q) (sym (lawful.every_kind ks k d ((==_iff _ _).0 q)))
      | inr q ↦ rw (h, q) refl
    ]
  ]

  -- Whatever the order of the set, the filter that comes of a query lets just the kinds pass that
  -- the query asks for: all of them without a query, for `*`, and when no valid kind is named,
  -- and otherwise those that are named.
  pub get_event_types-subscribes :
      (query : Option Text) (k : e.EventKind)
      → subscribes e (get_event_types e query) k ≡ accepts e query k
  unfolding get_event_types
  get_event_types-subscribes none k = refl
  get_event_types-subscribes (some s) k = elim (Bool-cases (equal s (codes "*"))) [
    | inl h ↦ rw h refl
    | inr h ↦
        let kinds = parse_kinds e (split 44 s) in
        rw h (
          unless_trivial-subscribes (dedupe e kinds) k (dedupe-Distinct kinds)
          ∙ rw (length-dedupe-zero kinds, member-dedupe k kinds) refl)
  ]
