-- ===== src/Workers/Ticking.antt =====
-- The loop of the cron worker's `fetch` in pkg/workers/queues.go over the ticks of one schedule.
use moab.Base.{
  ℕ, zero, suc, ◌-◌, ◌<◌, ◌≤◌, ◌≡◌, refl, ◌∙◌, String, List, [], ◌∷◌, ◌++◌, Result, Result-cases,
  ok, fail, Fault, arith, ◌⊎◌, inl, inr, Bool, true, false, ◌&&◌, if◌then◌else◌, Bool-cases, leb,
}
use mathlib.Core.List.{append-nil, append_assoc}
use moab.Base.Word.{sle, slt, half64, sle-leb}
use moab.Tasks.Types.{EnqueueRequestEntry}
use moab.Queues.Types.{Queue, Schedule}
use moab.Workers.{Ticks, expires_at_of, tick_entry, add_tick, add_ticks, ticks_of}

-- A tick that is worth a task: it is not past, and the task has not expired yet.
abbrev pub is_wanted : ℕ → Queue → Schedule → ℕ → Bool
is_wanted now queue schedule t = sle now t && slt now (expires_at_of queue schedule t)

abbrev pub wanted : ℕ → Queue → Schedule → List ℕ → List EnqueueRequestEntry
wanted now queue schedule [] = []
wanted now queue schedule (t ∷ ts) =
    let rest = wanted now queue schedule ts in
    if is_wanted now queue schedule t then tick_entry queue schedule t ∷ rest else rest

-- The time of the last entry, or `acc` where there is none.
abbrev pub last_of : ℕ → List EnqueueRequestEntry → ℕ
last_of acc [] = acc
last_of acc (e ∷ es) = last_of e.scheduled_at es

module _ (next_tick : String → String → ℕ → Result ℕ) (schedule : Schedule) where
  -- `ts` are the ticks from `t` on, up to `due_before`, and `n` is the one after them.
  abbrev pub AreTicks : ℕ → ℕ → List ℕ → ℕ → Type 0
  AreTicks due_before t [] n = (n ≡ t) × (due_before < t)
  AreTicks due_before t (x ∷ ts) n =
      (x ≡ t)
      × (t ≤ due_before)
      × ((u : ℕ) × (next_tick schedule.cron schedule.timezone t ≡ ok u)
          × AreTicks due_before u ts n)

  -- The next tick is later, and within the times of an int64.
  abbrev pub Advances : Type 0
  Advances = (t u : ℕ) → next_tick schedule.cron schedule.timezone t ≡ ok u → (t < u) × (u < half64)

  module _ (now due_before : ℕ) (queue : Queue) (advances : Advances)
      (bound : due_before < half64) where
    abbrev turned : Ticks → ℕ → Ticks
    turned s u = record (add_tick now queue schedule s) { scheduled_at = u }

    abbrev finish : Ticks → List ℕ → ℕ → Ticks
    finish s ts n = record {
      entries = s.entries ++ wanted now queue schedule ts;
      last_enqueued_for = last_of s.last_enqueued_for (wanted now queue schedule ts);
      scheduled_at = n;
    }

    -- A turn adds what is wanted of its tick.
    finish-turned :
        (s : Ticks) (u : ℕ) (ts : List ℕ) (n : ℕ)
        → finish (turned s u) ts n ≡ finish s (s.scheduled_at ∷ ts) n
    unfolding add_tick
    finish-turned s u ts n =
        let e : EnqueueRequestEntry = tick_entry queue schedule s.scheduled_at in
        let rest : List EnqueueRequestEntry = wanted now queue schedule ts in
        elim (Bool-cases (sle now s.scheduled_at)) [
          | inr past ↦ ground (arith, past)
          | inl ahead ↦ elim (Bool-cases (slt now e.expires_at)) [
            | inr expired ↦ ground (arith, ahead, expired)
            | inl alive ↦ ground (arith, ahead, alive, append_assoc s.entries (e ∷ []) rest)
          ]
        ]

    add_ticks_lem :
        (fuel : ℕ) (s : Ticks)
        → s.scheduled_at < half64
        → suc due_before - s.scheduled_at < fuel
        → ((e : Fault) × (t : ℕ) × (next_tick schedule.cron schedule.timezone t ≡ fail e)
            × (add_ticks next_tick fuel now due_before queue schedule s ≡ fail e))
          ⊎ ((ts : List ℕ) × (n : ℕ) × AreTicks due_before s.scheduled_at ts n
              × (add_ticks next_tick fuel now due_before queue schedule s ≡ ok (finish s ts n)))
    unfolding add_ticks
    add_ticks_lem zero s small enough = absurd (omega arith)
    add_ticks_lem (suc fuel) s small enough = elim (Bool-cases (leb s.scheduled_at due_before)) [
      | inr past ↦
          let test : sle s.scheduled_at due_before ≡ false =
            sle-leb s.scheduled_at due_before small bound ∙ past in
          inr (
            [],
            s.scheduled_at,
            (refl, ground (arith, past)),
            ground (arith, test, append-nil s.entries),
          )
      | inl due ↦
          let test : sle s.scheduled_at due_before ≡ true =
            sle-leb s.scheduled_at due_before small bound ∙ due in
          elim (Result-cases (next_tick schedule.cron schedule.timezone s.scheduled_at)) [
            | inr (e, failed) ↦ inl (e, s.scheduled_at, failed, ground (arith, test, failed))
            | inl (u, ticks) ↦
                let (later, fits) = advances s.scheduled_at u ticks in
                elim (add_ticks_lem fuel (turned s u) fits (ground (arith, due, later))) [
                  | inl (e, t, failed, run) ↦ inl (e, t, failed, ground (arith, test, ticks, run))
                  | inr (ts, n, are, run) ↦ inr (
                    s.scheduled_at ∷ ts,
                    n,
                    (refl, ground (arith, due), (u, ticks, are)),
                    ground (arith, test, ticks, run, finish-turned s u ts n),
                  )
                ]
          ]
    ]

  -- Where the next tick after a time is later than it and below 2 ^ 63, and the end of the
  -- window and the next time of the schedule are below 2 ^ 63: either the loop ends with an
  -- error of the next tick; or there are the successive ticks from the next time of the schedule
  -- up to the end of the window, its entries are one for each of these that is not before `now`
  -- and not expired by `now`, in order, the last time enqueued for is that of the last entry, or
  -- 0, and the next time is the first tick after the window.
  pub ticks_of_lem :
      (now due_before : ℕ) (queue : Queue)
      → Advances
      → due_before < half64
      → schedule.next_scheduled_at < half64
      → ((e : Fault) × (t : ℕ) × (next_tick schedule.cron schedule.timezone t ≡ fail e)
          × (ticks_of next_tick now due_before queue schedule ≡ fail e))
        ⊎ ((ts : List ℕ) × (n : ℕ) × AreTicks due_before schedule.next_scheduled_at ts n
            × (ticks_of next_tick now due_before queue schedule
                ≡ ok (record {
                  entries = wanted now queue schedule ts;
                  last_enqueued_for = last_of 0 (wanted now queue schedule ts);
                  scheduled_at = n;
                })))
  unfolding ticks_of
  ticks_of_lem now due_before queue advances bound small =
      add_ticks_lem now due_before queue advances bound _
        (record { entries = []; last_enqueued_for = 0; scheduled_at = schedule.next_scheduled_at })
        small (omega arith)
