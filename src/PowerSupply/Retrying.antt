-- ===== src/PowerSupply/Retrying.antt =====
-- The source of src/power_supply_events.c is open where it is needed, or its deadline says when it is
-- tried again.
use i3sd.Common.{
  ℕ, ◌+◌, ◌%◌, ◌≤◌, ◌<◌, ◌≡◌, inl, inr, refl, ◌∙◌, true, false, not, ◌&&◌, ◌||◌, List, leb, ◌==◌,
  if◌then◌else◌, u64_mod, u64_max, Bool-cases, arith,
}
use i3sd.PowerSupply.{
  retry_ns, Source, source_needed, Run, notify, close_source, Opening, open_source, reconcile,
  Received, Drained, drained, broken, drain, dispatch_budget, after_drain, process, deadline,
}

-- The source is not needed, closed, and waits for nothing; or it is needed and open; or it is needed and
-- closed, and has a deadline after `now_ns`.
pub data Settled (now_ns : ℕ) (s : Source) : Type 0 where
  unneeded : source_needed s ≡ false → s.fd ≡ false → deadline s ≡ u64_max → Settled now_ns s
  watching : source_needed s ≡ true → s.fd ≡ true → Settled now_ns s
  waiting : source_needed s ≡ true → s.fd ≡ false → now_ns < deadline s → Settled now_ns s

closed_deadline :
    (s : Source)
    → source_needed s ≡ true
    → s.fd ≡ false
    → 0 < s.retry_deadline_ns
    → deadline s ≡ s.retry_deadline_ns
unfolding deadline
closed_deadline s needed closed positive =
    let test : ((not (source_needed s) || s.fd) || s.retry_deadline_ns == 0) ≡ false =
      ground arith in
    rw test refl

unneeded_deadline : (s : Source) → source_needed s ≡ false → deadline s ≡ u64_max
unfolding deadline
unneeded_deadline s idle =
    let test : ((not (source_needed s) || s.fd) || s.retry_deadline_ns == 0) ≡ true =
      ground arith in
    rw test refl

-- A closed source that is to be tried again later.
later-Settled :
    (s : Source) (now_ns : ℕ) → s.fd ≡ false → now_ns < s.retry_deadline_ns → Settled now_ns s
later-Settled s now_ns closed later = elim (Bool-cases (source_needed s)) [
  | inl needed ↦ waiting needed closed (rw (closed_deadline s needed closed (omega arith)) later)
  | inr idle ↦ unneeded idle closed (unneeded_deadline s idle)
]

module _ (o : Opening) (s : Source) (now_ns : ℕ) (small : now_ns + retry_ns < u64_mod) where
  later : now_ns < (now_ns + retry_ns) % u64_mod
  later = omega arith

  open_source-Settled :
      s.fd ≡ false → source_needed s ≡ true → Settled now_ns (open_source o s now_ns)
  unfolding open_source source_needed
  open_source-Settled closed needed = elim (Bool-cases (not o.socket)) [
    | inl failed ↦ rw failed (later-Settled _ now_ns closed later)
    | inr socket ↦ elim (Bool-cases (not o.bind)) [
      | inl failed ↦ rw (socket, failed) (later-Settled _ now_ns closed later)
      | inr bind ↦ elim (Bool-cases (not o.epoll_ctl)) [
        | inl failed ↦ rw (socket, bind, failed) (later-Settled _ now_ns closed later)
        | inr watched ↦ rw (socket, bind, watched) (watching needed refl)
      ]
    ]
  ]

  closed_if_open : (if s.fd then close_source s else s).fd ≡ false
  unfolding close_source
  closed_if_open = elim (Bool-cases s.fd) [ inl opened ↦ ground arith | inr closed ↦ ground arith ]

  needs_same :
      source_needed (record (if s.fd then close_source s else s) { retry_deadline_ns = 0 })
      ≡ source_needed s
  unfolding close_source source_needed
  needs_same = ground arith

  reconcile-Settled : Settled now_ns (reconcile o s now_ns)
  unfolding reconcile
  reconcile-Settled = elim (Bool-cases (not (source_needed s))) [
    | inl idle ↦
        let none_needed = needs_same ∙ ground arith in
        rw idle (unneeded none_needed closed_if_open (unneeded_deadline _ none_needed))
    | inr needed ↦
        let wanted : source_needed s ≡ true = ground arith in
        elim (Bool-cases (not s.fd && leb s.retry_deadline_ns now_ns)) [
          | inl due ↦ rw (needed, due) (open_source-Settled (ground arith) wanted)
          | inr not_due ↦ elim (Bool-cases s.fd) [
            | inl opened ↦ rw (needed, not_due) (watching wanted opened)
            | inr closed ↦ rw (needed, not_due) (later-Settled s now_ns closed (ground arith))
          ]
        ]
  ]

after_drain-Settled :
    (run : Run) (o : Opening) (s : Source) (now_ns : ℕ) (result : Drained)
    → now_ns + retry_ns < u64_mod
    → Settled now_ns (after_drain run o s now_ns result)
unfolding after_drain close_source
after_drain-Settled run o s now_ns broken small =
    later-Settled _ now_ns refl (later o s now_ns small)
after_drain-Settled run o s now_ns (drained changed) small =
    reconcile-Settled o (if changed then notify run s else s) now_ns small

reopened :
    (o : Opening) (s : Source) (now_ns : ℕ)
    → source_needed s ≡ true
    → deadline s ≤ now_ns
    → now_ns < u64_max
    → o.socket ≡ true
    → o.bind ≡ true
    → o.epoll_ctl ≡ true
    → (reconcile o s now_ns).fd ≡ true
unfolding reconcile open_source deadline
reopened o s now_ns needed due bounded socket bind watched = ground arith

-- Whatever the socket answers and whatever the callbacks do, reading from an open source leaves it
-- settled, and so does reconcile from any state: not needed, closed and without a deadline; or needed
-- and open; or needed and closed with a deadline in the future. At its deadline reconcile opens a source
-- that is needed, if the calls of the system succeed.
pub process_settles :
    (run : Run) (o : Opening) (answers : List Received) (s : Source) (now_ns : ℕ)
    → now_ns + retry_ns < u64_mod
    → (s.fd ≡ true → Settled now_ns (process run o answers s now_ns))
      × Settled now_ns (reconcile o s now_ns)
      × (source_needed s ≡ true
          → deadline s ≤ now_ns
          → o.socket ≡ true
          → o.bind ≡ true
          → o.epoll_ctl ≡ true
          → (reconcile o s now_ns).fd ≡ true)
unfolding process
process_settles run o answers s now_ns small = (
  λ opened.
      let going : (not s.fd) ≡ false = ground arith in
      rw going (after_drain-Settled run o s now_ns (drain dispatch_budget answers false) small),
  reconcile-Settled o s now_ns small,
  λ needed due socket bind watched.
      reopened o s now_ns needed due (omega arith) socket bind watched,
)
