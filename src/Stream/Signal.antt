-- ===== src/Stream/Signal.antt =====
-- The signal that a pipe has data is never lost.
use tp2_so_g.Base.{
  ℕ, zero, suc, ◌+◌, ◌≡◌, ◌≤◌, ◌⊎◌, refl, ◌∙◌, ap, Bool, true, List, [], ◌∷◌, update, arith, inl,
  inr, if◌then◌else◌, update_self, Bool-cases,
}
use tp2_so_g.Stream.{
  Phase, outside, wants_data, has_data, reads, wants_now, reads_now, wants_write, writes, has_space,
  Stream, is_empty, left_over, goes, put_byte, Step, call_read, take_data, lock_read, finish_read,
  end_of_file, wait_again, call_read_now, lock_read_now, finish_read_now, call_write, lock_write,
  finish_write, would_block, take_space, write_byte, buffer_refuses, open_writer, drop_writer,
}
use tp2_so_g.Stream.Order.{will_look}

-- Where there is data, a unit of dataAvailable is there or somebody has taken one and will look.
abbrev pub IsSignalled : Stream → Type 0
IsSignalled m =
    (is_empty m.contents ≡ true)
    ⊎ (((n : ℕ) × (m.data_units ≡ suc n)) ⊎ ((v : ℕ) × (will_look (m.process v) ≡ true)))

unit : (d : ℕ) → 1 ≤ d → (n : ℕ) × (d ≡ suc n)
unit zero l = absurd (omega arith)
unit (suc n) l = (n, refl)

-- A process that did not look moves on.
other_moves :
    (w : ℕ) (p q : Phase) (m m' : Stream)
    → m.process w ≡ p
    → will_look p ≡ will_look q
    → m'.process ≡ goes w q m
    → m.data_units ≤ m'.data_units
    → (is_empty m.contents ≡ true → is_empty m'.contents ≡ true)
    → IsSignalled m
    → IsSignalled m'
other_moves w p q m m' e off moved more empty (inl x) = inl (empty x)
other_moves w p q m m' e off moved more empty (inr (inl (n, x))) =
    inr (inl (unit m'.data_units (omega arith)))
other_moves w p q m m' e off moved more empty (inr (inr (v, x))) =
    inr (inr (v, ap (λ f. will_look (f v)) moved ∙ still w v p q m.process e off x))
  where
    still :
        (w v : ℕ) (p q : Phase) (f : ℕ → Phase)
        → f w ≡ p
        → will_look p ≡ will_look q
        → will_look (f v) ≡ true
        → will_look (update f w q v) ≡ true
    still w v p q f e off x = ground (arith, e, off, x)

takes_look :
    (w : ℕ) (q : Phase) (m m' : Stream)
    → will_look q ≡ true
    → m'.process ≡ goes w q m
    → IsSignalled m'
takes_look w q m m' on moved =
    inr (inr (w, ap (λ f. will_look (f w)) moved ∙ ap will_look (update_self m.process w q) ∙ on))

left_empty : (n : ℕ) (bytes : List ℕ) → is_empty bytes ≡ true → is_empty (left_over n bytes) ≡ true
left_empty zero bytes e = e
left_empty (suc n) [] e = refl
left_empty (suc n) (b ∷ bytes) e = absurd (ground (arith, e))

units_or_empty :
    (d : ℕ) (bytes : List ℕ)
    → (is_empty bytes ≡ true) ⊎ ((n : ℕ) × (d + (if is_empty bytes then 0 else 1) ≡ suc n))
units_or_empty d [] = inl refl
units_or_empty d (b ∷ bytes) = inr (d, omega arith)

put_units :
    (d : ℕ) (bytes : List ℕ)
    → is_empty bytes ≡ true
    → (n : ℕ) × (d + (if is_empty bytes then 1 else 0) ≡ suc n)
put_units d bytes e = (d, ground (arith, e))

stays_put :
    (m m' : Stream)
    → m'.process ≡ m.process
    → m'.contents ≡ m.contents
    → m.data_units ≤ m'.data_units
    → IsSignalled m
    → IsSignalled m'
stays_put m m' same held more (inl x) = inl (ap is_empty held ∙ x)
stays_put m m' same held more (inr (inl (n, x))) = inr (inl (unit m'.data_units (omega arith)))
stays_put m m' same held more (inr (inr (v, x))) = inr (inr (v, ap (λ f. will_look (f v)) same ∙ x))

byte_signals :
    (w : ℕ) (nb : Bool) (b : ℕ) (bytes : List ℕ) (m : Stream)
    → m.process w ≡ has_space nb b bytes
    → IsSignalled m
    → IsSignalled (put_byte w nb b bytes m)
byte_signals w nb b bytes m e i = elim (Bool-cases (is_empty m.contents)) [
  | inl x ↦ inr (inl (put_units m.data_units m.contents x))
  | inr x ↦
      other_moves w (has_space nb b bytes) (writes nb bytes) m (put_byte w nb b bytes m) e refl refl
        (omega arith) (λ y. absurd (ground (arith, x, y))) i
]

pub Step-IsSignalled : (w : ℕ) {m m' : Stream} → Step w m m' → IsSignalled m → IsSignalled m'
Step-IsSignalled w {m} {m'} (call_read count e d) i =
    other_moves w outside (wants_data (suc count)) m m' e refl refl (omega arith) (λ x. x) i
Step-IsSignalled w {m} {m'} (take_data count n e d) i = takes_look w (has_data count) m m' refl refl
Step-IsSignalled w {m} {m'} (lock_read count n e d) i = takes_look w (reads count) m m' refl refl
Step-IsSignalled w {m} {m'} (finish_read count e d) i =
    elim (units_or_empty m.data_units (left_over count m.contents)) [
      | inl x ↦ inl x
      | inr u ↦ inr (inl u)
    ]
Step-IsSignalled w {m} {m'} (end_of_file count e d x) i = inl d
Step-IsSignalled w {m} {m'} (wait_again count n e d x) i = inl d
Step-IsSignalled w {m} {m'} (call_read_now count e d) i =
    other_moves w outside (wants_now (suc count)) m m' e refl refl (omega arith) (λ x. x) i
Step-IsSignalled w {m} {m'} (lock_read_now count n e d) i =
    other_moves w (wants_now count) (reads_now count) m m' e refl refl (omega arith) (λ x. x) i
Step-IsSignalled w {m} {m'} (finish_read_now count e) i =
    other_moves w (reads_now count) outside m m' e refl refl (omega arith)
      (left_empty count m.contents) i
Step-IsSignalled w {m} {m'} (call_write nb bytes e) i =
    other_moves w outside (wants_write nb bytes) m m' e refl refl (omega arith) (λ x. x) i
Step-IsSignalled w {m} {m'} (lock_write nb bytes n e d) i =
    other_moves w (wants_write nb bytes) (writes nb bytes) m m' e refl refl (omega arith) (λ x. x) i
Step-IsSignalled w {m} {m'} (finish_write nb e) i =
    other_moves w (writes nb []) outside m m' e refl refl (omega arith) (λ x. x) i
Step-IsSignalled w {m} {m'} (would_block b bytes e d) i =
    other_moves w (writes true (b ∷ bytes)) outside m m' e refl refl (omega arith) (λ x. x) i
Step-IsSignalled w {m} {m'} (take_space nb b bytes n e d x) i =
    other_moves w (writes nb (b ∷ bytes)) (has_space nb b bytes) m m' e refl refl (omega arith)
      (λ x. x) i
Step-IsSignalled w {m} {m'} (write_byte nb b bytes e d) i = byte_signals w nb b bytes m e i
Step-IsSignalled w {m} {m'} (buffer_refuses nb b bytes e d) i =
    other_moves w (has_space nb b bytes) (writes nb (b ∷ bytes)) m m' e refl refl (omega arith)
      (λ x. x) i
Step-IsSignalled w {m} {m'} (open_writer e) i = stays_put m m' refl refl (omega arith) i
Step-IsSignalled w {m} {m'} (drop_writer n e d) i = stays_put m m' refl refl (omega arith) i
