-- ===== src/Blackbox/Ring/Step.antt =====
-- A recorded sample takes the place of the oldest one.
use native.Mathlib.Nat.{mod-eq_of_lt, mod_self, suc-mod}
use bitacora.Base.{
  ℕ, suc, ◌+◌, ◌-◌, ◌%◌, ◌^◌, ◌≤◌, ◌<◌, ◌≡◌, refl, ap, ◌∙◌, sym, inl, inr, List, [], ◌∷◌, ◌++◌,
  append_assoc, append-nil, arith, length, length-append, length-drop, drop, All, All-append,
}
use bitacora.Base.Text.{Text}
use bitacora.Blackbox.Sample.{
  Sample, IsSample, sample_encoded_size, encode_sample, length-encode_sample,
}
use bitacora.Blackbox.Recorder.{Recorder, record_sample, record_all}
use bitacora.Blackbox.Region.{IsSlots}
use bitacora.Blackbox.Ring.{
  with_slots, encoded, encoded-IsSlots, record_sample_lem, Ring, drop_snoc, drop_next,
  map-append_one, length-encoded,
}

-- the slot that is written next, and what the ring is then
record Step (cap : ℕ) (ss : List Sample) (slots : List Text) (s : Sample) : Type 0 where
  before : List Text
  old : Text
  after : List Text
  split : slots ≡ before ++ old ∷ after
  position : length ss % cap ≡ length before
  sized : IsSlots before
  old_size : length old ≡ sample_encoded_size
  next : Ring cap (ss ++ s ∷ []) (before ++ encode_sample s ∷ after)

length-snoc : (ss : List Sample) (s : Sample) → length (ss ++ s ∷ []) ≡ suc (length ss)
length-snoc ss s = omega (arith, length-append ss (s ∷ []))

-- the samples of a ring that has just become full, all in order from the first slot
All-older :
    (cap : ℕ) (ss xs : List Sample)
    → All IsSample xs
    → drop (length ss - cap) ss ≡ xs
    → length xs ≡ cap
    → 0 < cap
    → length ss % cap ≡ 0
    → cap ≤ length ss
    → Ring cap ss (encoded xs)
All-older cap ss xs v latest counted pos position full = inr (record {
  newer = [];
  older = xs;
  layout = refl;
  valid_newer = tt;
  valid_older = v;
  counted = omega (arith, counted);
  latest = latest ∙ sym (append-nil xs);
  position = position;
  behind = pos;
  full = full;
})

full_mod : (cap n : ℕ) → suc n ≡ cap → suc n % cap ≡ 0
full_mod cap n e = ap (λ k. k % cap) e ∙ mod_self cap

filling-Step :
    (cap : ℕ) (ss : List Sample) (blanks : List Text) (s : Sample)
    → All IsSample ss
    → IsSample s
    → IsSlots blanks
    → length ss + length blanks ≡ cap
    → length ss < cap
    → Step cap ss (encoded ss ++ blanks) s
filling-Step cap ss [] s v vs sized counted room = absurd (omega arith)
filling-Step cap ss (b ∷ []) s v vs sized counted room = record {
  before = encoded ss;
  old = b;
  after = [];
  split = refl;
  position = mod-eq_of_lt room ∙ sym (length-encoded ss);
  sized = encoded-IsSlots ss v;
  old_size = sized.0;
  next = rw (sym (map-append_one ss s)) (
      All-older cap (ss ++ s ∷ []) (ss ++ s ∷ []) (All-append IsSample ss (s ∷ []) v (vs, tt))
        (let z : length (ss ++ s ∷ []) - cap ≡ 0 = omega (arith, length-snoc ss s) in rw z refl)
        (omega (arith, length-snoc ss s)) (omega arith)
        (ap (λ k. k % cap) (length-snoc ss s) ∙ full_mod cap (length ss) (omega arith))
        (omega (arith, length-snoc ss s)));
}
filling-Step cap ss (b ∷ c ∷ bs) s v vs sized counted room = record {
  before = encoded ss;
  old = b;
  after = c ∷ bs;
  split = refl;
  position = mod-eq_of_lt room ∙ sym (length-encoded ss);
  sized = encoded-IsSlots ss v;
  old_size = sized.0;
  next = inl (record {
    blanks = c ∷ bs;
    layout = sym (
        ap (λ l. l ++ (c ∷ bs)) (map-append_one ss s)
        ∙ append_assoc (encoded ss) (encode_sample s ∷ []) (c ∷ bs));
    sized = sized.1;
    counted = omega (arith, length-snoc ss s);
    room = omega (arith, length-snoc ss s);
  });
}

-- what a full ring drops and takes on
latest_next :
    (cap : ℕ) (ss newer older : List Sample) (o s : Sample)
    → cap ≤ length ss
    → drop (length ss - cap) ss ≡ (o ∷ older) ++ newer
    → drop (length (ss ++ s ∷ []) - cap) (ss ++ s ∷ []) ≡ older ++ (newer ++ s ∷ [])
latest_next cap ss newer older o s full latest =
    let e : length (ss ++ s ∷ []) - cap ≡ suc (length ss - cap) = omega (arith, length-snoc ss s) in
    let short = drop_next (length ss - cap) ss o (older ++ newer) latest in
    rw
      (e, drop_snoc (suc (length ss - cap)) ss s (not_last cap ss newer older o full latest), short)
      (append_assoc older newer (s ∷ []))
  where
    not_last :
        (cap : ℕ) (ss newer older : List Sample) (o : Sample)
        → cap ≤ length ss
        → drop (length ss - cap) ss ≡ (o ∷ older) ++ newer
        → suc (length ss - cap) ≤ length ss
    not_last cap ss newer older o full latest =
        let n : length (drop (length ss - cap) ss) ≡ suc (length (older ++ newer)) =
          ap length latest in
        omega (arith, n, length-drop (length ss - cap) ss)

wrapped-Step :
    (cap : ℕ) (ss newer older : List Sample) (s : Sample)
    → All IsSample newer
    → All IsSample older
    → IsSample s
    → length newer + length older ≡ cap
    → drop (length ss - cap) ss ≡ older ++ newer
    → length ss % cap ≡ length newer
    → length newer < cap
    → cap ≤ length ss
    → Step cap ss (encoded newer ++ encoded older) s
wrapped-Step cap ss newer [] s vn vo vs counted latest position behind full = absurd (omega arith)
wrapped-Step cap ss newer (o ∷ []) s vn vo vs counted latest position behind full = record {
  before = encoded newer;
  old = encode_sample o;
  after = [];
  split = refl;
  position = position ∙ sym (length-encoded newer);
  sized = encoded-IsSlots newer vn;
  old_size = length-encode_sample o vo.0;
  next = rw (sym (map-append_one newer s)) (
      All-older cap (ss ++ s ∷ []) (newer ++ s ∷ [])
        (All-append IsSample newer (s ∷ []) vn (vs, tt))
        (latest_next cap ss newer [] o s full latest) (omega (arith, length-snoc newer s))
        (omega arith)
        (ap (λ k. k % cap) (length-snoc ss s)
          ∙ suc-mod (length ss) cap
          ∙ ap (λ k. suc k % cap) position
          ∙ full_mod cap (length newer) (omega arith))
        (omega (arith, length-snoc ss s)));
}
wrapped-Step cap ss newer (o ∷ p ∷ older) s vn vo vs counted latest position behind full = record {
  before = encoded newer;
  old = encode_sample o;
  after = encoded (p ∷ older);
  split = refl;
  position = position ∙ sym (length-encoded newer);
  sized = encoded-IsSlots newer vn;
  old_size = length-encode_sample o vo.0;
  next = inr (record {
    newer = newer ++ s ∷ [];
    older = p ∷ older;
    layout = sym (
        ap (λ l. l ++ encoded (p ∷ older)) (map-append_one newer s)
        ∙ append_assoc (encoded newer) (encode_sample s ∷ []) (encoded (p ∷ older)));
    valid_newer = All-append IsSample newer (s ∷ []) vn (vs, tt);
    valid_older = vo.1;
    counted = omega (arith, length-snoc newer s);
    latest = latest_next cap ss newer (p ∷ older) o s full latest;
    position =
        ap (λ k. k % cap) (length-snoc ss s)
        ∙ suc-mod (length ss) cap
        ∙ ap (λ k. suc k % cap) position
        ∙ mod-eq_of_lt (let l : suc (length newer) < cap = omega arith in l)
        ∙ sym (length-snoc newer s);
    behind = omega (arith, length-snoc newer s);
    full = omega (arith, length-snoc ss s);
  });
}

Ring-Step :
    (cap : ℕ) (ss : List Sample) (slots : List Text) (s : Sample)
    → All IsSample ss
    → IsSample s
    → Ring cap ss slots
    → Step cap ss slots s
Ring-Step cap ss slots s v vs (inl f) =
    rw f.layout (filling-Step cap ss f.blanks s v vs f.sized f.counted f.room)
Ring-Step cap ss slots s v vs (inr w) = rw w.layout (
    wrapped-Step cap ss w.newer w.older s w.valid_newer w.valid_older vs w.counted w.latest
      w.position w.behind w.full)

-- a recorder whose file is the ring of the samples
pub record Holds (cap : ℕ) (ss : List Sample) (r : Recorder) : Type 0 where
  pub slots : List Text
  pub bytes : r ≡ with_slots cap (length ss) slots
  pub ring : Ring cap ss slots

record_sample-Holds :
    (cap : ℕ) (ss : List Sample) (r : Recorder) (s : Sample)
    → cap < 2 ^ 32
    → length ss + 1 < 2 ^ 64
    → All IsSample ss
    → IsSample s
    → Holds cap ss r
    → Holds cap (ss ++ s ∷ []) (record_sample s r)
record_sample-Holds cap ss r s hc hn v vs h =
    let t = Ring-Step cap ss h.slots s v vs h.ring in
    record {
      slots = t.before ++ encode_sample s ∷ t.after;
      bytes =
          ap (record_sample s) (h.bytes ∙ ap (with_slots cap (length ss)) t.split)
          ∙ record_sample_lem cap (length ss) t.before t.old t.after s hc hn t.position t.sized
              t.old_size vs
          ∙ ap (λ n. with_slots cap n (t.before ++ encode_sample s ∷ t.after))
              (sym (length-append ss (s ∷ [])));
      ring = t.next;
    }

pub record_all-Holds :
    (cap : ℕ) (ss ts : List Sample) (r : Recorder)
    → cap < 2 ^ 32
    → length ss + length ts < 2 ^ 64
    → All IsSample ss
    → All IsSample ts
    → Holds cap ss r
    → Holds cap (ss ++ ts) (record_all ts r)
unfolding record_all
record_all-Holds cap ss [] r hc hn v vt h = rw (append-nil ss) h
record_all-Holds cap ss (t ∷ ts) r hc hn v vt h = rw (sym (append_assoc ss (t ∷ []) ts)) (
    record_all-Holds cap (ss ++ t ∷ []) ts (record_sample t r) hc (omega (arith, length-snoc ss t))
      (All-append IsSample ss (t ∷ []) v (vt.0, tt)) vt.1
      (record_sample-Holds cap ss r t hc (omega arith) v vt.0 h))
