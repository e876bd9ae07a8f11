-- ===== src/SubmissionRate/Window.antt =====
-- How many submissions a window lets through (sla_calculator/src/submission_rate.rs).
use noc_iq_contracts.Base.{
  ℕ, ◌+◌, ◌-◌, ◌≤◌, ◌<◌, ◌≡◌, refl, sym, subst, Bool, true, false, Option, none, some, List, [],
  ◌∷◌, leb, unwrap_or, if◌then◌else◌, Bool-cases, inl, inr, ◌⊎◌, arith,
}
use noc_iq_contracts.Types.{Address, SlaError, u32_mod}
use noc_iq_contracts.Effect.{Outcome, ok, kept, Effect, ◌>>◌}
use noc_iq_contracts.SubmissionRate.{
  SubmissionRateConfig, GlobalSubmissionTrack, RateStore, check_submission_rate, record_submission,
  live_count, operator_track, global_track, counted_globally,
}

-- A submission is checked and, if it is let through, recorded.
unfoldable pub submit : Address → Effect RateStore SlaError (Unit {0})
submit operator = check_submission_rate operator >> record_submission operator

abbrev pub is_ok : Outcome SlaError (Unit {0}) → Bool
is_ok (ok u) = true
is_ok _ = false

-- The storage after submissions at the given times, and the times of those let through.
unfoldable pub submit_all : List (ℕ × Address) → RateStore → List ℕ → RateStore × List ℕ
submit_all [] s times = (s, times)
submit_all ((now, operator) ∷ rest) s times =
    let r = submit operator now s in
    submit_all rest (kept s r) (if is_ok r.0 then now ∷ times else times)

-- How many of the times are not before the start.
unfoldable pub count_from : ℕ → List ℕ → ℕ
count_from start [] = 0
count_from start (t ∷ ts) = (if leb start t then 1 else 0) + count_from start ts

abbrev pub AllBelow : ℕ → List ℕ → Type 0
AllBelow n [] = Unit
AllBelow n (t ∷ ts) = (t < n) × AllBelow n ts

abbrev pub Ascending : ℕ → List (ℕ × Address) → Type 0
Ascending last [] = Unit
Ascending last ((now, operator) ∷ rest) = (last ≤ now) × Ascending now rest

count_from-AllBelow : (n : ℕ) (ts : List ℕ) → AllBelow n ts → count_from n ts ≡ 0
unfolding count_from
count_from-AllBelow n [] h = refl
count_from-AllBelow n (t ∷ ts) h = ground (arith, count_from-AllBelow n ts h.1)

AllBelow-le : (n m : ℕ) (ts : List ℕ) → n ≤ m → AllBelow n ts → AllBelow m ts
AllBelow-le n m [] le h = tt
AllBelow-le n m (t ∷ ts) le h = (omega arith, AllBelow-le n m ts le h.1)

module _ (c : SubmissionRateConfig) (on : c.enabled ≡ true) (small : c.max_total < u32_mod)
    (some_time : 0 < c.window_seconds) where
  -- The stored window against the times of what was let through.
  abbrev Tracks : Option GlobalSubmissionTrack → ℕ → List ℕ → Type 0
  Tracks none last times = times ≡ []
  Tracks (some g) last times =
      (count_from g.window_start times ≡ g.total_count)
      × (g.total_count ≤ c.max_total)
      × (g.window_start ≤ last)
      × AllBelow (g.window_start + c.window_seconds) times

  -- A submission is refused without effect, or it is counted below the limit.
  submit-cases :
      (now : ℕ) (operator : Address) (s : RateStore)
      → s.config ≡ some c
      → let r = submit operator now s in
        ((is_ok r.0 ≡ false) × (kept s r ≡ s))
        ⊎ ((is_ok r.0 ≡ true)
            × ((kept s r).config ≡ some c)
            × ((kept s r).global
                ≡ some (counted_globally now c.window_seconds (global_track now s)))
            × (live_count now
                  (global_track now s).window_start
                  c.window_seconds
                  (global_track now s).total_count
                < c.max_total))
  unfolding submit check_submission_rate record_submission
  submit-cases now operator s e =
      let track = operator_track operator now s in
      let total = global_track now s in
      elim (Bool-cases
        (leb c.max_per_operator (live_count now track.window_start c.window_seconds track.count))) [
          | inl full ↦ inl (ground arith, ground arith)
          | inr room ↦
              elim (Bool-cases (
                leb c.max_total
                  (live_count now total.window_start c.window_seconds total.total_count))) [
                    | inl full ↦ inl (ground arith, ground arith)
                    | inr below ↦ inr (ground arith, ground arith, ground arith, ground arith)
                  ]
        ]

  later-Tracks :
      (o : Option GlobalSubmissionTrack) (last now : ℕ) (times : List ℕ)
      → last ≤ now
      → Tracks o last times
      → Tracks o now times
  later-Tracks none last now times le h = h
  later-Tracks (some g) last now times le h = (h.0, h.1, omega arith, h.3)

  counted_globally-Tracks :
      (o : Option GlobalSubmissionTrack) (last now : ℕ) (times : List ℕ)
      → last ≤ now
      → Tracks o last times
      → let t = unwrap_or o (record { total_count = 0; window_start = now }) in
        live_count now t.window_start c.window_seconds t.total_count < c.max_total
        → Tracks (some (counted_globally now c.window_seconds t)) now (now ∷ times)
  unfolding count_from
  counted_globally-Tracks none last now times le h room =
      let first : GlobalSubmissionTrack = record { total_count = 1; window_start = now } in
      let e : counted_globally now c.window_seconds (record { total_count = 0; window_start = now })
          ≡ first =
        ground arith in
      rw h (
        subst (λ t. Tracks (some t) now (now ∷ [])) (sym e)
          (ground arith, ground arith, omega arith, (omega arith, tt)))
  counted_globally-Tracks (some g) last now times le h room =
      elim (Bool-cases (leb c.window_seconds (now - g.window_start))) [
        | inl over ↦
            let fresh : GlobalSubmissionTrack = record { total_count = 1; window_start = now } in
            let e : counted_globally now c.window_seconds g ≡ fresh = ground arith in
            let old =
              AllBelow-le (g.window_start + c.window_seconds) now times (ground arith) h.3 in
            subst (λ t. Tracks (some t) now (now ∷ times)) (sym e)
              (
                ground (arith, count_from-AllBelow now times old),
                ground arith,
                omega arith,
                (omega arith, AllBelow-le now (now + c.window_seconds) times (omega arith) old),
              )
        | inr within ↦
            let more : GlobalSubmissionTrack = record {
              total_count = g.total_count + 1;
              window_start = g.window_start;
            } in
            let e : counted_globally now c.window_seconds g ≡ more = ground (arith, h.1) in
            subst (λ t. Tracks (some t) now (now ∷ times)) (sym e)
              (ground (arith, h.0), ground arith, omega arith, (ground arith, h.3))
      ]

  submit-Tracks :
      (now last : ℕ) (operator : Address) (s : RateStore) (times : List ℕ)
      → s.config ≡ some c
      → last ≤ now
      → Tracks s.global last times
      → let r = submit operator now s in
        ((kept s r).config ≡ some c)
        × Tracks (kept s r).global now (if is_ok r.0 then now ∷ times else times)
  submit-Tracks now last operator s times e le h = elim (submit-cases now operator s e) [
    | inl (refused, same) ↦ rw (refused, same) (e, later-Tracks s.global last now times le h)
    | inr (let_through, config, global, room) ↦
        rw (let_through, config, global)
          (refl, counted_globally-Tracks s.global last now times le h room)
  ]

  submit_all-Tracks :
      (last : ℕ) (calls : List (ℕ × Address)) (s : RateStore) (times : List ℕ)
      → s.config ≡ some c
      → Ascending last calls
      → Tracks s.global last times
      → let (t, accepted) = submit_all calls s times in (end : ℕ) × Tracks t.global end accepted
  unfolding submit_all
  submit_all-Tracks last [] s times e up h = (last, h)
  submit_all-Tracks last ((now, operator) ∷ calls) s times e up h =
      let step = submit-Tracks now last operator s times e up.0 h in
      submit_all-Tracks now calls (kept s (submit operator now s))
        (if is_ok (submit operator now s).0 then now ∷ times else times) step.0 up.1 step.1

  -- Under an enabled configuration that stays, submissions at ascending times from a storage that
  -- has counted none yet leave a window such that no more than `max_total` of those let through,
  -- and exactly as many as the stored count, fall at or after its start, and all of them before
  -- its end.
  pub window-bounded :
      (calls : List (ℕ × Address)) (s : RateStore) (g : GlobalSubmissionTrack)
      → s.config ≡ some c
      → s.global ≡ none
      → Ascending 0 calls
      → (submit_all calls s []).0.global ≡ some g
      → let accepted = (submit_all calls s []).1 in
        (count_from g.window_start accepted ≡ g.total_count)
        × (count_from g.window_start accepted ≤ c.max_total)
        × AllBelow (g.window_start + c.window_seconds) accepted
  window-bounded calls s g e none_yet up stored =
      let h = submit_all-Tracks 0 calls s [] e up (rw none_yet refl) in
      let k = (rw stored at (h.1)) in (k.0, omega arith, k.3)
