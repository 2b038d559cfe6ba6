-- ===== src/Clock/Hour.antt =====
-- The hour that Kernel/time.c gives is the clock's in the time zone.
use tpe.Base.{
  ℕ, suc, ◌+◌, ◌-◌, ◌%◌, ◌≤◌, ◌<◌, ◌≡◌, ap, true, ◌&&◌, List, [], ◌∷◌, leb, arith, inl, inr,
  Bool-cases,
}
use tpe.Base.Int.{ℤ, pos, negsuc, pos_part, neg_part}
use tpe.Clock.{min_gmt, max_gmt, default_gmt, set_gmt, hour}

-- GMT after a sequence of calls of `setGMT`.
abbrev pub gmt_after : List ℤ → ℤ → ℤ
gmt_after [] gmt = gmt
gmt_after (g ∷ gs) gmt = gmt_after gs (set_gmt g gmt).1

abbrev IsGmt : ℤ → Type 0
IsGmt gmt = (neg_part gmt ≤ min_gmt) × (pos_part gmt ≤ max_gmt)

set_gmt-IsGmt : (g old : ℤ) → IsGmt old → IsGmt (set_gmt g old).1
unfolding set_gmt
set_gmt-IsGmt g old h = elim (Bool-cases (leb (neg_part g) min_gmt && leb (pos_part g) max_gmt)) [
  | inl e ↦ rw e (ground (arith, e), ground (arith, e))
  | inr e ↦ rw e h
]

gmt_after-IsGmt : (gs : List ℤ) (gmt : ℤ) → IsGmt gmt → IsGmt (gmt_after gs gmt)
gmt_after-IsGmt [] gmt h = h
gmt_after-IsGmt (g ∷ gs) gmt h = gmt_after-IsGmt gs (set_gmt g gmt).1 (set_gmt-IsGmt g gmt h)

hour-IsGmt :
    (sys_time : ℕ → ℕ) (gmt : ℤ)
    → IsGmt gmt
    → sys_time 2 < 24
    → hour sys_time gmt ≡ pos ((sys_time 2 + pos_part gmt + 24 - neg_part gmt) % 24)
unfolding hour
hour-IsGmt sys_time (pos g) h k =
    let later : leb 0 (sys_time 2 + g) ≡ true = ground arith in
    elim (Bool-cases (leb (sys_time 2 + g - 0) 23)) [
      | inl e ↦ rw (later, e) (ap pos (ground (arith, e)))
      | inr e ↦ rw (later, e) (ap pos (ground (arith, e, h, k)))
    ]
hour-IsGmt sys_time (negsuc g) h k = elim (Bool-cases (leb (suc g) (sys_time 2 + 0))) [
  | inl e ↦
      let today : leb (sys_time 2 + 0 - suc g) 23 ≡ true = ground (arith, k) in
      rw (e, today) (ap pos (ground (arith, e)))
  | inr e ↦
      let rest : leb (suc g - (sys_time 2 + 0) - 1 + 1) 24 ≡ true = ground (arith, h) in
      rw (e, rest) (ap pos (ground (arith, e, h)))
]

-- Whatever values `setGMT` is called with from the start on, valid or not, and with a clock that gives
-- an hour of the day, `hour` gives the hour of the day that is GMT hours later.
pub hour-gmt_after :
    (sys_time : ℕ → ℕ) (gs : List ℤ)
    → sys_time 2 < 24
    → hour sys_time (gmt_after gs default_gmt)
      ≡ pos (
          (sys_time 2
            + pos_part (gmt_after gs default_gmt)
            + 24
            - neg_part (gmt_after gs default_gmt))
          % 24)
hour-gmt_after sys_time gs h =
    hour-IsGmt sys_time (gmt_after gs default_gmt)
      (gmt_after-IsGmt gs default_gmt (omega arith, omega arith)) h
