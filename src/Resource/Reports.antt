-- ===== src/Resource/Reports.antt =====
-- What the table of observed changes holds after a change was put in.
use ops_inspection_system.Common.{
  ℕ, ◌<◌, String, Bool, true, Option, none, some, List, [], ◌∷◌, ◌++◌, ◌≡◌, ◌⊎◌, refl, arith, All,
  update_where, Bool-cases, Option-cases, inl, inr, string_eq, number_eq, if◌then◌else◌, ltb,
}
use ops_inspection_system.Resource.{Payload}
use ops_inspection_system.Resource.Store.{Event, Store, newest}
use ops_inspection_system.Resource.Store.Changes.{
  open_at, event_id, is_open, get_open_resource_change_event, has_id, see_again, fresh_event,
  same_fingerprint, upsert_resource_change_event,
}
use ops_inspection_system.Resource.Evaluate.{fingerprint}

newest-append {ℓ} :
    {A : Type ℓ} (id : A → ℕ) (p : A → Bool) (xs : List A) (x : A)
    → All (λ y. id y < id x) xs
    → p x ≡ true
    → newest id p (xs ++ x ∷ []) ≡ some x
unfolding newest
newest-append id p [] x h hit = ground arith
newest-append id p (y ∷ xs) x (h, hs) hit = ground (arith, newest-append id p xs x hs hit)

newest-hit {ℓ} :
    {A : Type ℓ} (id : A → ℕ) (p : A → Bool) (xs : List A) (x : A)
    → newest id p xs ≡ some x
    → p x ≡ true
unfolding newest
newest-hit id p [] x e = absurd (cc)
newest-hit id p (y ∷ xs) x e = elim (Option-cases (newest id p xs)) [
  | inl alone ↦ ground arith
  | inr (z, there) ↦ ground (arith, newest-hit id p xs z there)
]

-- An update that keeps the ids and what `p` says of a row.
newest-update_where :
    (p q : Event → Bool) (f : Event → Event) (xs : List Event)
    → ((x : Event) → (f x).id ≡ x.id)
    → ((x : Event) → p (f x) ≡ p x)
    → ((newest event_id p xs ≡ none) × (newest event_id p (update_where q f xs) ≡ none))
      ⊎ ((x : Event) × (newest event_id p xs ≡ some x)
          × (newest event_id p (update_where q f xs) ≡ some (if q x then f x else x)))
unfolding newest update_where
newest-update_where p q f [] same keeps = inl (refl, refl)
newest-update_where p q f (y ∷ xs) same keeps = elim (newest-update_where p q f xs same keeps) [
  | inl (e, e') ↦ elim (Bool-cases (p y)) [
    | inl hit ↦ inr (y, ground arith, ground (arith, keeps y))
    | inr miss ↦ inl (ground arith, ground (arith, keeps y))
  ]
  | inr (x, e, e') ↦ elim (Bool-cases (p y)) [
    | inr miss ↦ inr (x, ground arith, ground (arith, keeps y))
    | inl hit ↦ elim (Bool-cases (ltb y.id x.id)) [
      | inl later ↦ inr (x, ground arith, ground (arith, keeps y, same x, same y))
      | inr earlier ↦ inr (y, ground arith, ground (arith, keeps y, same x, same y))
    ]
  ]
]

-- The ids of the events were handed out.
abbrev pub IsIssued : Store → Type 0
IsIssued s = All (λ (e : Event). e.id < s.next_event) s.events

-- The server's newest open event says what was observed, and has the id.
pub record IsReported (server_id id : ℕ) (observed : Payload) (changes : List String) (s : Store)
    : Type 0 where
  pub event : Event
  pub newest_open : get_open_resource_change_event server_id s ≡ some event
  pub number : event.id ≡ id
  pub waits : is_open event.status ≡ true
  pub seen : event.observed_payload ≡ observed
  pub detail : event.change_detail ≡ changes

open_reopened :
    (at : ℕ) (observed : Payload) (changes : List String) (server_id : ℕ) (e : Event)
    → open_at server_id (see_again at observed changes e) ≡ open_at server_id e
open_reopened at observed changes server_id e = ground arith

same_fingerprint-some :
    (fingerprint : String) (o : Option Event) (e : Event)
    → same_fingerprint fingerprint o ≡ some e
    → o ≡ some e
same_fingerprint-some fingerprint none e h = absurd (cc)
same_fingerprint-some fingerprint (some x) e h = ground arith

pub upsert-IsReported :
    (at server_id : ℕ) (fingerprint : String) (baseline observed : Payload) (changes : List String)
    (s : Store)
    → IsIssued s
    → IsReported server_id
        (upsert_resource_change_event at server_id fingerprint baseline observed changes s).1
        observed
        changes
        (upsert_resource_change_event at server_id fingerprint baseline observed changes s).0
unfolding upsert_resource_change_event get_open_resource_change_event
upsert-IsReported at server_id fingerprint baseline observed changes s i =
    elim (Option-cases
      (same_fingerprint fingerprint (newest event_id (open_at server_id) s.events))) [
        | inl fresh ↦
            rw (fresh, upsert_resource_change_event)
              (record {
                event = fresh_event s.next_event at server_id fingerprint baseline observed changes;
                newest_open =
                    newest-append event_id (open_at server_id) s.events _ i (ground arith);
                number = refl;
                waits = refl;
                seen = refl;
                detail = refl;
              })
        | inr (e, known) ↦
            let found =
              same_fingerprint-some fingerprint (newest event_id (open_at server_id) s.events) e
                known in
            let hit = newest-hit event_id (open_at server_id) s.events e found in
            rw (known, upsert_resource_change_event)
              (record {
                event = see_again at observed changes e;
                newest_open =
                    elim (newest-update_where (open_at server_id) (has_id e.id)
                      (see_again at observed changes) s.events (λ x. refl)
                      (open_reopened at observed changes server_id)) [
                        | inl (gone, _) ↦ absurd (cc)
                        | inr (x, there, after) ↦ ground arith
                      ];
                number = refl;
                waits = ground arith;
                seen = refl;
                detail = refl;
              })
      ]
