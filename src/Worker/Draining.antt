-- ===== src/Worker/Draining.antt =====
-- Every job is tried at most five times, and the queue runs empty (app/workers/consumer.py).
use mathlib.Core.Path.{subst}
use Prim.Native.Nat.{◌*◌}
use company_tax_and_accounti.Base.{
  ℕ, zero, suc, ◌+◌, ◌-◌, ◌≤◌, leb, Bool, true, false, Option-cases, String, List, [], ◌∷◌, ◌++◌,
  ◌≡◌, refl, ap, ◌∙◌, inl, inr, arith, if◌then◌else◌, length, All, All-append, Bool-cases,
}
use company_tax_and_accounti.Worker.{
  Message, Broker, max_deliveries, payload_of, deliveries_of, again, Consumer, failed, dispatched,
  process, Run, idle, run,
}

-- The tries that a message has left.
abbrev pub tries_left : Message → ℕ
tries_left m = if leb max_deliveries (deliveries_of m) then 1 else 6 - deliveries_of m

abbrev pub budget : List Message → ℕ
budget [] = 0
budget (m ∷ ms) = tries_left m + budget ms

budget-append : (ms ns : List Message) → budget (ms ++ ns) ≡ budget ms + budget ns
budget-append [] ns = ground arith
budget-append (m ∷ ms) ns = let e = budget-append ms ns in ground arith

length-append : (ms ns : List Message) → length (ms ++ ns) ≡ length ms + length ns
length-append [] ns = ground arith
length-append (m ∷ ms) ns = let e = length-append ms ns in ground arith

-- A job that is tried again has one try less.
tries_left-again :
    (m : Message)
    → leb max_deliveries (deliveries_of m) ≡ false
    → suc (tries_left (again m)) ≡ tries_left m
tries_left-again m h = ground arith

tries_left_pos : (m : Message) → 1 ≤ tries_left m
tries_left_pos m = ground arith

tries_left-five : (m : Message) → 1 ≤ deliveries_of m → tries_left m ≤ 5
tries_left-five m h = ground arith

budget-five : (ms : List Message) → All (λ m. 1 ≤ deliveries_of m) ms → budget ms ≤ 5 * length ms
budget-five [] h = ground arith
budget-five (m ∷ ms) h = let e = budget-five ms h.1 in let f = tries_left-five m h.0 in ground arith

module _ (b : Broker) (World : Type 0) (is_json : String → Bool)
    (dispatch : World → String → Bool × World) where
  waiting : Consumer b World is_json dispatch → List Message
  waiting k = b.waiting k.stream

  -- All jobs: those that wait, those that are done, and the dead letters.
  jobs : Consumer b World is_json dispatch → ℕ
  jobs k = length (waiting k) + length k.completed + length k.dead

  AllJson : List Message → Type 0
  AllJson = All (λ m. is_json (payload_of m) ≡ true)

  -- What processing a message does to the budget and to the jobs, where the message was just
  -- taken from the stream.
  record Stepped (m : Message) (k k' : Consumer b World is_json dispatch) : Type 0 where
    spent : suc (budget (waiting k')) ≤ tries_left m + budget (waiting k)
    keeps : jobs k' ≡ suc (jobs k)
    json : AllJson (waiting k')

  dispatched-Stepped :
      (m : Message) (r : Bool × World) (k : Consumer b World is_json dispatch)
      → is_json (payload_of m) ≡ true
      → AllJson (waiting k)
      → Stepped m k (dispatched b World is_json dispatch m r k)
  unfolding dispatched failed waiting jobs AllJson
  dispatched-Stepped m (true, w) k j h =
      let once = tries_left_pos m in
      record {
        spent = ground arith;
        keeps = let e = length-append k.completed (m ∷ []) in ground arith;
        json = h;
      }
  dispatched-Stepped m (false, w) k j h = elim (Bool-cases (leb max_deliveries (deliveries_of m))) [
    | inl last ↦
        let once = tries_left_pos m in
        let e = length-append k.dead (m ∷ []) in
        rw last (record { spent = ground arith; keeps = ground arith; json = h })
    | inr more ↦
        let added = b.waiting-xadd k.stream (again m) in
        let less = tries_left-again m more in
        let e = budget-append (b.waiting k.stream) (again m ∷ []) in
        let n = length-append (b.waiting k.stream) (again m ∷ []) in
        rw more (record {
          spent = rw added (ground arith);
          keeps = rw added (ground arith);
          json = rw added (All-append _ (b.waiting k.stream) (again m ∷ []) h (j, tt));
        })
  ]

  -- A run that has become idle.
  Drained : Run b World is_json dispatch → ℕ → Type 0
  Drained r n =
      (k : Consumer b World is_json dispatch) × (r ≡ idle k)
      × (b.waiting k.stream ≡ [])
      × (length k.completed + length k.dead ≡ n)

  run-Drained :
      (fuel : ℕ) (k : Consumer b World is_json dispatch)
      → AllJson (waiting k)
      → budget (waiting k) ≤ fuel
      → Drained (run b World is_json dispatch fuel k) (jobs k)
  unfolding run process waiting jobs AllJson Drained
  run-Drained zero k h enough = elim (Option-cases (b.xreadgroup k.stream)) [
    | inl empty ↦
        let done = b.xreadgroup-waiting k.stream empty in
        (k, rw (run, empty) refl, done, rw done (ground arith))
    | inr ((m, s), next) ↦
        let e = ap budget (b.xreadgroup-next k.stream s m next) in
        let once = tries_left_pos m in absurd (ground arith)
  ]
  run-Drained (suc fuel) k h enough = elim (Option-cases (b.xreadgroup k.stream)) [
    | inl empty ↦
        let done = b.xreadgroup-waiting k.stream empty in
        (k, rw empty refl, done, rw done (ground arith))
    | inr ((m, s), next) ↦
        let e = b.xreadgroup-next k.stream s m next in
        let json = subst (All (λ m. is_json (payload_of m) ≡ true)) e h in
        let k₀ : Consumer b World is_json dispatch = record k { stream = s } in
        let k₁ = dispatched b World is_json dispatch m (dispatch k.world (payload_of m)) k₀ in
        let st = dispatched-Stepped m (dispatch k.world (payload_of m)) k₀ json.0 json.1 in
        let cost = ap budget e in
        let left : budget (b.waiting k₁.stream) ≤ fuel = let sp = st.spent in ground arith in
        let (x, same, done, count) = run-Drained fuel k₁ st.json left in
        let all_jobs = ap length e in
        let kept = st.keeps in (x, rw (next, json.0) same, done, count ∙ kept ∙ ground arith)
  ]

  -- Whatever the jobs do, if every waiting payload is JSON and deliveries are counted from 1,
  -- five tries for each waiting message are enough for the consumer to become idle: then no
  -- message waits, and every job has been completed or is a dead letter.
  pub run-drains :
      (fuel : ℕ) (k : Consumer b World is_json dispatch)
      → All (λ m. is_json (payload_of m) ≡ true) (b.waiting k.stream)
      → All (λ m. 1 ≤ deliveries_of m) (b.waiting k.stream)
      → 5 * length (b.waiting k.stream) ≤ fuel
      → (k' : Consumer b World is_json dispatch) × (run b World is_json dispatch fuel k ≡ idle k')
        × (b.waiting k'.stream ≡ [])
        × (length k'.completed + length k'.dead
            ≡ length (b.waiting k.stream) + length k.completed + length k.dead)
  unfolding waiting jobs AllJson Drained
  run-drains fuel k h d enough =
      let five = budget-five (b.waiting k.stream) d in
      let within : budget (b.waiting k.stream) ≤ fuel = ground arith in run-Drained fuel k h within
