-- ===== src/Store/Outbox/Backoff.antt =====
-- When a failed event is tried again.
use changeguard.Prelude.{
  ℕ, zero, suc, ◌+◌, ◌*◌, ◌^◌, ◌≤◌, String, ◌≡◌, refl, true, none, find, replace_first,
  find-replace_first, find_holds, arith, leb, Bool-cases, ◌⊎◌, inl, inr, some,
}
use changeguard.Model.Status.{Time, second, OutboxStatus, dead}
use changeguard.Model.{OutboxEvent, ok}
use changeguard.Store.Base.{State, Call, save_locked}
use changeguard.Store.Saving.{save_locked-ok}
use changeguard.Store.Outbox.{
  has_event_id, min_int, failed_event, fail_outbox, leased_update, valid_outbox_lease,
}

-- dead after its last attempt, and else free and due again after one to 64 seconds
abbrev pub Settled : Time → OutboxEvent → OutboxEvent → Type 0
Settled now e f =
    (f.locked_by ≡ "")
    × (f.locked_until ≡ none)
    × (((e.max_attempts ≤ e.attempts) × (f.status ≡ dead))
        ⊎ ((e.attempts + 1 ≤ e.max_attempts)
            × (f.status ≡ OutboxStatus.pending)
            × (f.attempt_id ≡ "")
            × (now + second ≤ f.next_attempt_at)
            × (f.next_attempt_at ≤ now + 64 * second)))

power_bounds : (n : ℕ) → n ≤ 6 → (1 ≤ 2 ^ n) × (2 ^ n ≤ 64)
power_bounds zero h = (omega arith, omega arith)
power_bounds (suc zero) h = (omega arith, omega arith)
power_bounds (suc (suc zero)) h = (omega arith, omega arith)
power_bounds (suc (suc (suc zero))) h = (omega arith, omega arith)
power_bounds (suc (suc (suc (suc zero)))) h = (omega arith, omega arith)
power_bounds (suc (suc (suc (suc (suc zero))))) h = (omega arith, omega arith)
power_bounds (suc (suc (suc (suc (suc (suc zero)))))) h = (omega arith, omega arith)
power_bounds (suc (suc (suc (suc (suc (suc (suc n))))))) h = absurd (omega arith)

min_int-le : (n : ℕ) → min_int n 6 ≤ 6
min_int-le n = ground arith

delay_bounds :
    (n : ℕ) → (second ≤ 2 ^ min_int n 6 * second) × (2 ^ min_int n 6 * second ≤ 64 * second)
delay_bounds n =
    let (low, high) = power_bounds (min_int n 6) (min_int-le n) in scaled (2 ^ min_int n 6) low high
  where
    scaled : (p : ℕ) → 1 ≤ p → p ≤ 64 → (second ≤ p * second) × (p * second ≤ 64 * second)
    scaled p low high = (omega arith, omega arith)

failed_event-Settled :
    (now : Time) (cause : String) (e : OutboxEvent) → Settled now e (failed_event now cause e)
unfolding failed_event
failed_event-Settled now cause e = elim (Bool-cases (leb e.max_attempts e.attempts)) [
  | inl h ↦ rw h (refl, refl, inl (ground arith, refl))
  | inr h ↦
      let (low, high) = delay_bounds e.attempts in
      rw h (refl, refl, inr (ground arith, refl, refl, omega arith, omega arith))
]

same_id :
    (now : Time) (cause : String) (e : OutboxEvent) (id : String)
    → has_event_id id e ≡ true
    → has_event_id id (failed_event now cause e) ≡ true
unfolding failed_event
same_id now cause e id h = elim (Bool-cases (leb e.max_attempts e.attempts)) [
  | inl g ↦ rw g h
  | inr g ↦ rw g h
]

module _ (c : Call) (id worker : String) (generation : ℕ) (cause : String) (s t : State)
    (e : OutboxEvent) (found : find (has_event_id id) s.outbox ≡ some e) where
  failed_state : State
  failed_state = record s {
    outbox = replace_first (has_event_id id) (failed_event c.now cause e) s.outbox;
  }

  leased :
      fail_outbox c id worker generation cause s ≡ (t, ok tt)
      → save_locked c.saving failed_state (λ r. some r) tt ≡ (t, ok tt)
  unfolding fail_outbox leased_update failed_state
  leased h = elim (Bool-cases (valid_outbox_lease e worker generation c.now)) [
    | inl v ↦ let h' = rw (found, leased_update) at h in rw v at h'
    | inr v ↦
        let h' = rw (found, leased_update) at h in let h'' = rw v at h' in absurd (ground arith)
  ]

  -- A failure that is accepted leaves the event with its worker's lease taken back: dead if it has
  -- used up its attempts, and else pending under no attempt and due again after at least one and at
  -- most 64 seconds.
  pub fail_outbox-Settled :
      fail_outbox c id worker generation cause s ≡ (t, ok tt)
      → (f : OutboxEvent) × (find (has_event_id id) t.outbox ≡ some f) × Settled c.now e f
  unfolding failed_state
  fail_outbox-Settled h =
      let (te, _) = save_locked-ok c.saving failed_state t (λ r. some r) tt tt (leased h) in
      (
        failed_event c.now cause e,
        rw te (
            find-replace_first (has_event_id id) s.outbox (failed_event c.now cause e) e found
              (kept_id (find_holds (has_event_id id) s.outbox e found))),
        failed_event-Settled c.now cause e,
      )
    where
      kept_id : has_event_id id e ≡ true → has_event_id id (failed_event c.now cause e) ≡ true
      kept_id h = same_id c.now cause e id h
