-- ===== src/CircuitBreaker/Windows.antt =====
-- What a volume window holds after any sequence of tips, newest first.
use stellar_tipjar_contracts.Common.{
  ℕ, ◌+◌, ◌≤◌, ◌<◌, ◌≡◌, refl, true, false, List, [], ◌∷◌, leb, if◌then◌else◌, Bool-cases, inl, inr,
  leb→le, ap, sym, arith,
}
use stellar_tipjar_contracts.Common.Int.{ℤ, pos, ltb_ℤ, ◌+ℤ◌, i128_max}
use stellar_tipjar_contracts.Common.Saturating.{
  u32_max, u64_max, min, max, saturating_add, saturating_add_i128, clamp_i128,
}
use stellar_tipjar_contracts.CircuitBreaker.{VolumeWindow, empty_window}
use stellar_tipjar_contracts.CircuitBreaker.Volumes.{update_volume_window}

pub record Tip : Type 0 where
  pub time : ℕ
  pub amount : ℕ

-- The window after the tips, from an empty one at `start`.
unfoldable pub after : ℕ → ℕ → List Tip → VolumeWindow
after duration start [] = empty_window start
after duration start (t ∷ older) =
    update_volume_window (after duration start older) (pos t.amount) t.time duration

unfoldable pub latest : ℕ → List Tip → ℕ
latest start [] = start
latest start (t ∷ older) = t.time

-- Time does not run backwards, nor past the word's end, and the amounts are words.
abbrev pub IsOrdered : ℕ → ℕ → List Tip → Type 0
IsOrdered duration start [] = start + duration ≤ u64_max
IsOrdered duration start (t ∷ older) =
    (latest start older ≤ t.time)
    × (t.time + duration ≤ u64_max)
    × (t.amount ≤ i128_max)
    × IsOrdered duration start older

-- The tips from a time on: their sum, number and largest amount.
unfoldable pub sum_since : ℕ → List Tip → ℕ
sum_since from [] = 0
sum_since from (t ∷ older) = (if leb from t.time then t.amount else 0) + sum_since from older

unfoldable pub count_since : ℕ → List Tip → ℕ
count_since from [] = 0
count_since from (t ∷ older) = (if leb from t.time then 1 else 0) + count_since from older

unfoldable pub largest_since : ℕ → List Tip → ℕ
unfolding max
largest_since from [] = 0
largest_since from (t ∷ older) =
    max (if leb from t.time then t.amount else 0) (largest_since from older)

-- The window holds the tips since its start, of which none came after its end.
pub record IsTally (duration start : ℕ) (tips : List Tip) (w : VolumeWindow) : Type 0 where
  pub volume : w.current_volume ≡ pos (min (sum_since w.window_start tips) i128_max)
  pub counted : w.tip_count ≡ min (count_since w.window_start tips) u32_max
  pub largest : w.max_single_tip ≡ pos (largest_since w.window_start tips)
  pub begun : w.window_start ≤ latest start tips
  pub current : latest start tips < w.window_start + duration
  pub bounded : w.window_start + duration ≤ u64_max

-- No tip is later than the latest, so none counts from a later time on.
sum_since-none :
    (duration start from : ℕ) (tips : List Tip)
    → IsOrdered duration start tips
    → latest start tips < from
    → (sum_since from tips ≡ 0) × (count_since from tips ≡ 0) × (largest_since from tips ≡ 0)
unfolding sum_since count_since largest_since latest
sum_since-none duration start from [] o h = (refl, refl, refl)
sum_since-none duration start from (t ∷ older) o h =
    ground (arith, o, sum_since-none duration start from older o.3 (omega (arith, o.0)))

saturating_add-eq : (top a b : ℕ) → a + b ≤ top → saturating_add top a b ≡ a + b
unfolding saturating_add min
saturating_add-eq top a b h = ground arith

window-restarts :
    (w : VolumeWindow) (amount : ℤ) (now duration : ℕ)
    → leb (w.window_start + duration) now ≡ true
    → w.window_start + duration ≤ u64_max
    → update_volume_window w amount now duration ≡ record {
      window_start = now;
      current_volume = amount;
      tip_count = 1;
      unique_senders = 1;
      max_single_tip = amount;
    }
unfolding update_volume_window
window-restarts w amount now duration e h =
    rw (saturating_add-eq u64_max w.window_start duration h, e) refl

window-continues :
    (w : VolumeWindow) (amount : ℤ) (now duration : ℕ)
    → leb (w.window_start + duration) now ≡ false
    → w.window_start + duration ≤ u64_max
    → update_volume_window w amount now duration ≡ record w {
      current_volume = saturating_add_i128 w.current_volume amount;
      tip_count = saturating_add u32_max w.tip_count 1;
      max_single_tip = if ltb_ℤ w.max_single_tip amount then amount else w.max_single_tip;
    }
unfolding update_volume_window
window-continues w amount now duration e h =
    rw (saturating_add-eq u64_max w.window_start duration h, e) refl

-- A tip from the time on counts.
since-cons :
    (from : ℕ) (t : Tip) (older : List Tip)
    → from ≤ t.time
    → (sum_since from (t ∷ older) ≡ t.amount + sum_since from older)
      × (count_since from (t ∷ older) ≡ 1 + count_since from older)
      × (largest_since from (t ∷ older) ≡ max t.amount (largest_since from older))
unfolding sum_since count_since largest_since
since-cons from t older h = let e : leb from t.time ≡ true = ground arith in rw e (refl, refl, refl)

add_saturated :
    (s a : ℕ) → saturating_add_i128 (pos (min s i128_max)) (pos a) ≡ pos (min (a + s) i128_max)
unfolding saturating_add_i128 clamp_i128 ◌+ℤ◌ min i128_max
add_saturated s a = ground arith

count_saturated : (c : ℕ) → saturating_add u32_max (min c u32_max) 1 ≡ min (1 + c) u32_max
unfolding saturating_add min
count_saturated c = ground arith

larger : (l a : ℕ) → (if ltb_ℤ (pos l) (pos a) then pos a else pos l) ≡ pos (max a l)
unfolding max
larger l a = ground arith

min-add_zero : (a b : ℕ) → a ≤ b → a ≡ min (a + 0) b
unfolding min
min-add_zero a b h = ground arith

max-zero : (a : ℕ) → max a 0 ≡ a
unfolding max
max-zero a = ground arith

module _ (duration start : ℕ) (older : List Tip) (w : VolumeWindow) (t : Tip)
    (h : IsTally duration start older w) (o : IsOrdered duration start older)
    (later : latest start older ≤ t.time) (fits : t.time + duration ≤ u64_max)
    (word : t.amount ≤ i128_max) (long : 0 < duration) where
  -- A tip from the window's end on begins a new window.
  restart :
      leb (w.window_start + duration) t.time ≡ true
      → IsTally duration start (t ∷ older) (update_volume_window w (pos t.amount) t.time duration)
  unfolding latest
  restart e =
      let (s, c, l) =
        sum_since-none duration start t.time older o (omega (arith, h.current, leb→le _ _ e)) in
      let (s', c', l') = since-cons t.time t older (omega arith) in
      rw (window-restarts w (pos t.amount) t.time duration e h.bounded) (record {
        volume = rw (s', s) (ap pos (min-add_zero t.amount i128_max word));
        counted = rw (c', c) (min-add_zero 1 u32_max (omega arith));
        largest = rw (l', l) (ap pos (sym (max-zero t.amount)));
        begun = omega arith;
        current = omega (arith, long);
        bounded = fits;
      })

  continue :
      leb (w.window_start + duration) t.time ≡ false
      → IsTally duration start (t ∷ older) (update_volume_window w (pos t.amount) t.time duration)
  unfolding latest
  continue e =
      let (s', c', l') = since-cons w.window_start t older (omega (arith, h.begun, later)) in
      rw (window-continues w (pos t.amount) t.time duration e h.bounded) (record {
        volume = rw (s', h.volume) (add_saturated (sum_since w.window_start older) t.amount);
        counted = rw (c', h.counted) (count_saturated (count_since w.window_start older));
        largest = rw (l', h.largest) (larger (largest_since w.window_start older) t.amount);
        begun = omega (arith, h.begun, later);
        current = ground (arith, e);
        bounded = h.bounded;
      })

-- For tips in the order of time, each a word, whose times with the window's length stay in the word: after
-- them a window that began empty holds the sum, the number and the largest amount of the tips since its
-- start (the sum and the number stop at the word's end); the latest tip is before the window's end.
pub after-IsTally :
    (duration start : ℕ) (tips : List Tip)
    → 0 < duration
    → IsOrdered duration start tips
    → IsTally duration start tips (after duration start tips)
unfolding after latest sum_since count_since largest_since min i128_max
after-IsTally duration start [] long o = record {
  volume = refl;
  counted = refl;
  largest = refl;
  begun = omega arith;
  current = omega (arith, long);
  bounded = o;
}
after-IsTally duration start (t ∷ older) long o =
    let h = after-IsTally duration start older long o.3 in
    elim (Bool-cases (leb ((after duration start older).window_start + duration) t.time)) [
      | inl e ↦ restart duration start older _ t h o.3 o.0 o.1 o.2 long e
      | inr e ↦ continue duration start older _ t h o.3 o.0 o.1 o.2 long e
    ]
