-- ===== src/Worker/Opening/Temporal.antt =====
-- What the temporal guard accepts.
use utm_curs_i_orar.Prelude.{
  ℕ, ◌+◌, ◌≤◌, ◌≡◌, refl, ◌↔◌, Option, none, some, ltb, if◌then◌else◌, arith,
}
use utm_curs_i_orar.Text.{Text}
use utm_curs_i_orar.Worker.Instants.{wp_gmt_instant}
use utm_curs_i_orar.Worker.Opening.{
  TemporalVerdict, acceptable, future_page, against_baseline, evaluate_page_timestamp,
}

-- The stamp is not beyond the clock and the tolerated skew.
abbrev pub IsNotFuture : ℕ → Option ℕ → Type 0
IsNotFuture latest none = Unit
IsNotFuture latest (some t) = t ≤ latest

-- A readable baseline has a readable stamp at or after it.
abbrev pub IsNotStale : Option ℕ → Option ℕ → Type 0
IsNotStale none incoming = Unit
IsNotStale (some base) none = ⊥
IsNotStale (some base) (some t) = base ≤ t

judged :
    (incoming baseline : Option ℕ) (latest : ℕ)
    → ((elim incoming as (λ _. TemporalVerdict) [
      | none ↦ against_baseline incoming baseline
      | some t ↦ if ltb latest t then future_page else against_baseline incoming baseline
    ])
        ≡ acceptable)
      ↔ (IsNotFuture latest incoming × IsNotStale baseline incoming)
unfolding against_baseline
judged none none latest = (λ h. (tt, tt), λ h. refl)
judged none (some base) latest = (λ h. cc, λ h. absurd h.1)
judged (some t) none latest = ground arith
judged (some t) (some base) latest = ground arith

-- The guard accepts a page exactly if its stamp, where it can be read, is at most the skew ahead
-- of the clock and, where the baseline can be read, is readable and not before the baseline.
pub evaluate_page_timestamp-acceptable_iff :
    (incoming baseline : Option Text) (now max_skew : ℕ)
    → (evaluate_page_timestamp incoming baseline now max_skew ≡ acceptable) ↔ (
        IsNotFuture (now + max_skew) (wp_gmt_instant incoming)
        × IsNotStale (wp_gmt_instant baseline) (wp_gmt_instant incoming))
unfolding evaluate_page_timestamp
evaluate_page_timestamp-acceptable_iff incoming baseline now max_skew =
    judged (wp_gmt_instant incoming) (wp_gmt_instant baseline) (now + max_skew)
