-- ===== src/Timeline/Order.antt =====
-- The order and the completeness of the timeline.
use mathlib.Core.List.{Perm, perm_append_comm}
use mathlib.Core.List.Perm
use gateway_forge.Common.{
  ℕ, sym, ◌≤◌, ◌≡◌, subst, append_assoc, ◌++◌, inl, inr, List, [], ◌∷◌, arith, ltb, Bool-cases,
  ltb→lt, ltb-false→le,
}
use gateway_forge.Common.Outcome.{done, >>=-eq-done}
use gateway_forge.Protocol.Schema.{ProtocolSchema}
use gateway_forge.Flow.FlowTracker.{Flow}
use gateway_forge.Timeline.Builder.{TimelineEvent, collect_events, insert_event, sort_events, build}

-- No event of the list is earlier than this time.
abbrev pub NotBefore : ℕ → List TimelineEvent → Type 0
NotBefore t [] = Unit {0}
NotBefore t (e ∷ es) = (t ≤ e.timestamp_us) × NotBefore t es

abbrev pub IsChronological : List TimelineEvent → Type 0
IsChronological [] = Unit {0}
IsChronological (e ∷ es) = NotBefore e.timestamp_us es × IsChronological es

NotBefore-mono : (t u : ℕ) (es : List TimelineEvent) → t ≤ u → NotBefore u es → NotBefore t es
NotBefore-mono t u [] h n = tt
NotBefore-mono t u (e ∷ es) h n = (omega arith, NotBefore-mono t u es h n.1)

insert-NotBefore :
    (t : ℕ) (e : TimelineEvent) (es : List TimelineEvent)
    → t ≤ e.timestamp_us
    → NotBefore t es
    → NotBefore t (insert_event e es)
unfolding insert_event
insert-NotBefore t e [] h n = (h, tt)
insert-NotBefore t e (x ∷ xs) h n = ground (arith, insert-NotBefore t e xs h n.1)

insert-IsChronological :
    (e : TimelineEvent) (es : List TimelineEvent)
    → IsChronological es
    → IsChronological (insert_event e es)
unfolding insert_event
insert-IsChronological e [] c = (tt, tt)
insert-IsChronological e (x ∷ xs) c = elim (Bool-cases (ltb x.timestamp_us e.timestamp_us)) [
  | inl later ↦ rw later (
    insert-NotBefore x.timestamp_us e xs (omega (arith, ltb→lt _ _ later)) c.0,
    insert-IsChronological e xs c.1,
  )
  | inr here ↦ rw here (
    (
      ltb-false→le _ _ here,
      NotBefore-mono e.timestamp_us x.timestamp_us xs (ltb-false→le _ _ here) c.0,
    ),
    c,
  )
]

insert-perm : (e : TimelineEvent) (es : List TimelineEvent) → Perm (insert_event e es) (e ∷ es)
unfolding insert_event
insert-perm e [] = Perm.refl _
insert-perm e (x ∷ xs) = elim (Bool-cases (ltb x.timestamp_us e.timestamp_us)) [
  | inl later ↦ rw later (Perm.trans (Perm.cons x (insert-perm e xs)) (Perm.swap e x xs))
  | inr here ↦ rw here (Perm.refl _)
]

pub sort_events_lem :
    (es : List TimelineEvent) → IsChronological (sort_events es) × Perm (sort_events es) es
unfolding sort_events
sort_events_lem [] = (tt, Perm.refl _)
sort_events_lem (e ∷ es) =
    let (sorted, perm) = sort_events_lem es in
    (
      insert-IsChronological e (sort_events es) sorted,
      Perm.trans (insert-perm e (sort_events es)) (Perm.cons e perm),
    )

pub perm_same : {es es' : List TimelineEvent} → es ≡ es' → Perm es es'
perm_same {es = es} e = subst (λ (xs : List TimelineEvent). Perm es xs) e (Perm.refl es)

-- Two parts in front of a list change places.
pub perm_parts : (xs ys zs : List TimelineEvent) → Perm (xs ++ (ys ++ zs)) (ys ++ (xs ++ zs))
perm_parts xs ys zs =
    Perm.trans (perm_same (sym (append_assoc xs ys zs))) (
      Perm.trans (Perm.append_right zs (perm_append_comm xs ys))
        (perm_same (append_assoc ys xs zs)))

-- What `Build` leaves, if it returns, is in the order of time, and holds each event of each flow
-- exactly as often as the flows give it.
pub build_sorted :
    (fuel : ℕ) (schema : ProtocolSchema) (flows : List Flow) {events : List TimelineEvent}
    → build fuel schema flows ≡ done events
    → IsChronological events
      × ((collected : List TimelineEvent) × (collect_events fuel schema flows ≡ done collected)
          × Perm events collected)
unfolding build
build_sorted fuel schema flows {events = events} h =
    let (collected, e, last) = >>=-eq-done (collect_events fuel schema flows) _ h in
    let (sorted, perm) = sort_events_lem collected in
    let same : sort_events collected ≡ events = cc in
    (
      subst IsChronological same sorted,
      (collected, e, subst (λ (xs : List TimelineEvent). Perm xs collected) same perm),
    )
