-- ===== src/Outbox/Worker/Runs.antt =====
-- Every run of a step, seen through the log of its calls.
use nexus_services.Shared.{
  ℕ, zero, suc, ◌+◌, ◌*◌, ◌<◌, ◌/◌, ◌≤◌, ◌<◌, ◌≡◌, ◌≢◌, refl, Bool, true, false, Option, none, some,
  List, [], ◌∷◌, Result, ok, err, arith, Bool-cases, inl, inr, second, minute, if◌then◌else◌,
  Duration, leb,
}
use nexus_services.Shared.Int.{ℤ, pos, negsuc}
use nexus_services.Text.{Text, text_eq, text_eq_iff}
use nexus_services.Ports.{PortError, OutboxEvent, PublishReceipt}
use nexus_services.Outbox.Worker.{
  Outcome, no_work, published, retry_scheduled, failed_permanent, RunError, another_lease,
  finish_published_failed, finish_invalid_failed, schedule_failed, claim_failed, Config, Ports,
  base_delay, retry_delay, delays, delay_at, finished, is_invalid_outbox_event, invalid_reason,
  retry_reason, finish, publish_claimed, claim_with, run_once,
}

base_delay_bounds : (n : ℤ) → (second ≤ base_delay n) × (base_delay n ≤ 5 * minute)
unfolding base_delay
base_delay_bounds (negsuc n) = omega arith
base_delay_bounds (pos zero) = omega arith
base_delay_bounds (pos (suc zero)) = omega arith
base_delay_bounds (pos (suc (suc zero))) = omega arith
base_delay_bounds (pos (suc (suc (suc zero)))) = omega arith
base_delay_bounds (pos (suc (suc (suc (suc zero))))) = omega arith
base_delay_bounds (pos (suc (suc (suc (suc (suc zero)))))) = omega arith
base_delay_bounds (pos (suc (suc (suc (suc (suc (suc n))))))) = ground arith

-- The calls that reach the store and the broker, with their replies.
pub data Call : Type 0 where
  claim : Text → Result PortError (Option OutboxEvent) → Call
  publish : OutboxEvent → Result PortError PublishReceipt → Call
  mark_published : Text → Text → PublishReceipt → Result PortError Bool → Call
  mark_failed : Text → Text → Text → Result PortError Bool → Call
  schedule_retry : Text → Text → Text → Result PortError Bool → Call

-- The same ports, with these calls written down, the last one first.
abbrev pub logged : {W : Type 0} → Ports W → Ports (W × List Call)
logged P = record {
  done = λ w. P.done w.0;
  now = λ w. let (t, w') = P.now w.0 in (t, (w', w.1));
  new_id = λ w. let (r, w') = P.new_id w.0 in (r, (w', w.1));
  claim_next = λ worker lease at duration w.
      let (r, w') = P.claim_next worker lease at duration w.0 in (r, (w', claim lease r ∷ w.1));
  publish = λ event w. let (r, w') = P.publish event w.0 in (r, (w', publish event r ∷ w.1));
  mark_published = λ id lease receipt at w.
      let (r, w') = P.mark_published id lease receipt at w.0 in
      (r, (w', mark_published id lease receipt r ∷ w.1));
  mark_failed = λ id lease at reason w.
      let (r, w') = P.mark_failed id lease at reason w.0 in
      (r, (w', mark_failed id lease reason r ∷ w.1));
  schedule_retry = λ id lease at reason w.
      let (r, w') = P.schedule_retry id lease at reason w.0 in
      (r, (w', schedule_retry id lease reason r ∷ w.1));
  random = λ n w. let (k, w') = P.random n w.0 in (k, (w', w.1));
}

-- The finishing call that the reply of the broker asks for, and how the step then ends.
abbrev pub Finishes :
    OutboxEvent → Text → Result PortError PublishReceipt → Call → Result RunError Outcome → Type 0
Finishes e lease (ok receipt) (mark_published id l rc reply) r =
    (id ≡ e.id)
    × (l ≡ lease)
    × (rc ≡ receipt)
    × (r ≡ finished finish_published_failed published reply)
Finishes e lease (err x) (mark_failed id l reason reply) r =
    (is_invalid_outbox_event x ≡ true)
    × (id ≡ e.id)
    × (l ≡ lease)
    × (reason ≡ invalid_reason)
    × (r ≡ finished finish_invalid_failed failed_permanent reply)
Finishes e lease (err x) (schedule_retry id l reason reply) r =
    (is_invalid_outbox_event x ≡ false)
    × (id ≡ e.id)
    × (l ≡ lease)
    × (reason ≡ retry_reason)
    × (r ≡ finished schedule_failed retry_scheduled reply)
Finishes _ _ _ _ _ = ⊥

-- A log of one call: the claim failed, found nothing, or brought an event under another lease.
abbrev pub IsClaimOnly : Call → Result RunError Outcome → Type 0
IsClaimOnly (claim lease (err _)) r = r ≡ err claim_failed
IsClaimOnly (claim lease (ok none)) r = r ≡ ok no_work
IsClaimOnly (claim lease (ok (some e))) r = (e.lease_id ≢ lease) × (r ≡ err another_lease)
IsClaimOnly _ _ = ⊥

-- A log of three calls, the last one first.
abbrev pub IsPublication : Call → Call → Call → Result RunError Outcome → Type 0
IsPublication finishing (publish e reply) (claim lease (ok (some event))) r =
    (event.lease_id ≡ lease) × (e ≡ event) × Finishes event lease reply finishing r
IsPublication _ _ _ _ = ⊥

abbrev pub is_failure : Result RunError Outcome → Bool
is_failure (ok _) = false
is_failure (err _) = true

-- The logs that a step leaves, with its result.
abbrev pub IsRun : List Call → Result RunError Outcome → Type 0
IsRun [] r = is_failure r ≡ true
IsRun (c ∷ []) r = IsClaimOnly c r
IsRun (f ∷ p ∷ []) r = ⊥
IsRun (f ∷ p ∷ c ∷ []) r = IsPublication f p c r
IsRun (f ∷ p ∷ c ∷ _ ∷ _) r = ⊥

module _ {W : Type 0} (P : Ports W) (config : Config) where
  finish_lem :
      (e : OutboxEvent) (lease : Text) (reply : Result PortError PublishReceipt) (w : W)
      (log : List Call)
      → let (r, (w', log')) = finish (logged P) config e lease reply (w, log) in
        (c : Call) × (log' ≡ c ∷ log) × Finishes e lease reply c r
  unfolding finish retry_delay
  finish_lem e lease (ok receipt) w log =
      let (at, w₁) = P.now w in
      let (updated, w₂) = P.mark_published e.id lease receipt at w₁ in
      (mark_published e.id lease receipt updated, refl, (refl, refl, refl, refl))
  finish_lem e lease (err x) w log =
      let (at, w₁) = P.now w in
      elim (Bool-cases (is_invalid_outbox_event x)) [
        | inl b ↦
            let (updated, w₂) = P.mark_failed e.id lease at invalid_reason w₁ in
            rw b (mark_failed e.id lease invalid_reason updated, refl, (b, refl, refl, refl, refl))
        | inr b ↦
            let (delay, w₂) = retry_delay (logged P) e.attempts (w₁, log) in
            let (updated, w₃) = P.schedule_retry e.id lease (at + delay) retry_reason w₂.0 in
            rw b (schedule_retry e.id lease retry_reason updated, refl, (b, refl, refl, refl, refl))
      ]

  publish_claimed-IsRun :
      (lease : Text) (reply : Result PortError (Option OutboxEvent)) (w : W)
      → let (r, (w', log)) =
          publish_claimed (logged P) config lease reply (w, claim lease reply ∷ []) in
        IsRun log r
  unfolding publish_claimed
  publish_claimed-IsRun lease (err x) w = refl
  publish_claimed-IsRun lease (ok none) w = refl
  publish_claimed-IsRun lease (ok (some e)) w = elim (Bool-cases (text_eq e.lease_id lease)) [
    | inl b ↦
        let (reply, w') = P.publish e w in
        let (c, log, fits) =
          finish_lem e lease reply w' (publish e reply ∷ claim lease (ok (some e)) ∷ []) in
        rw (b, log) ((text_eq_iff e.lease_id lease).0 b, refl, fits)
    | inr b ↦ rw b (λ q. ground (arith, text_eq_iff e.lease_id lease), refl)
  ]

  claim_with-IsRun :
      (reply : Result PortError Text) (w : W)
      → let (r, (w', log)) = claim_with (logged P) config reply (w, []) in IsRun log r
  unfolding claim_with
  claim_with-IsRun (err e) w = refl
  claim_with-IsRun (ok lease) w =
      let (at, w₁) = P.now w in
      let (reply, w₂) = P.claim_next config.worker_id lease at config.lease_duration w₁ in
      publish_claimed-IsRun lease reply w₂

-- A step claims once; it publishes exactly the event that it claimed, if the event carries its own
-- lease; and after each publication, successful or not, it makes exactly one finishing call, under
-- that lease, the one that fits the broker's reply. Its result is the finishing call's.
pub run_once-IsRun :
    {W : Type 0} (P : Ports W) (config : Config) (w : W)
    → let (r, (w', log)) = run_once (logged P) config (w, []) in IsRun log r
unfolding run_once
run_once-IsRun P config w = elim (Bool-cases (P.done w)) [
  | inl b ↦ rw b refl
  | inr b ↦ rw b (claim_with-IsRun P config (P.new_id w).0 (P.new_id w).1)
]

-- The wait before the next attempt lies between the delay of the attempt and a fifth more, is at
-- least a second and at most six minutes, when the random number is below its bound.
pub retry_delay_bounds :
    {W : Type 0} (P : Ports W) (attempts : ℤ) (w : W)
    → ((n : ℕ) → 0 < n → (P.random n w).0 < n)
    → let delay = (retry_delay P attempts w).0 in
      (base_delay attempts ≤ delay)
      × (delay ≤ base_delay attempts + base_delay attempts / 5)
      × (second ≤ delay)
      × (delay ≤ 6 * minute)
unfolding retry_delay
retry_delay_bounds P attempts w h =
    let base = base_delay attempts in
    let r = h (base / 5 + 1) (omega arith) in omega (arith, base_delay_bounds attempts)

abbrev IsRising : List Duration → Type 0
IsRising [] = Unit
IsRising (d ∷ []) = Unit
IsRising (d ∷ e ∷ ds) = (d ≤ e) × IsRising (e ∷ ds)

head-le-delay_at :
    (d : Duration) (ds : List Duration) (i : ℕ) → IsRising (d ∷ ds) → d ≤ delay_at (d ∷ ds) i
head-le-delay_at d [] i h = omega arith
head-le-delay_at d (e ∷ ds) zero h = omega arith
head-le-delay_at d (e ∷ ds) (suc i) h = omega (arith, head-le-delay_at e ds i h.1)

delay_at_mono : (ds : List Duration) (i j : ℕ) → IsRising ds → i ≤ j → delay_at ds i ≤ delay_at ds j
delay_at_mono [] i j h le = omega arith
delay_at_mono (d ∷ []) i j h le = omega arith
delay_at_mono (d ∷ e ∷ ds) zero j h le = head-le-delay_at d (e ∷ ds) j h
delay_at_mono (d ∷ e ∷ ds) (suc i) zero h le = absurd (omega arith)
delay_at_mono (d ∷ e ∷ ds) (suc i) (suc j) h le = delay_at_mono (e ∷ ds) i j h.1 (omega arith)

-- Later attempts do not wait less.
pub base_delay_mono : (m n : ℕ) → m ≤ n → base_delay (pos m) ≤ base_delay (pos n)
unfolding base_delay
base_delay_mono m n h =
    delay_at_mono delays (if leb 7 m then 6 else m) (if leb 7 n then 6 else n) (omega arith)
      (ground arith)
