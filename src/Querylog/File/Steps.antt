-- ===== src/Querylog/File/Steps.antt =====
-- A step of the binary search of qlogfile.go for the time stamp of a line.
use null_private.Prelude.{
  ℕ, suc, ◌+◌, ◌-◌, ◌/◌, ◌≤◌, ◌<◌, ◌≡◌, refl, sym, ap, subst, true, false, Option, none, some, List,
  arith, length, ltb, ◌==◌ as nat_eqb, ◌⊎◌, inl, inr, if◌then◌else◌,
}
use null_private.Prelude.Int.{ℤ, pos, negsuc, ltb_ℤ, eqb_ℤ}
use null_private.Querylog.File.{
  Buffer, LogLine, OsFile, Probe, Step, stop, found, narrow, Result, ok, error, read_probe_line,
  validate_line_idx, compared, probed, idx_of, seek_loop,
}
use null_private.Querylog.File.Scan.{StartsAt, byte_of}
use null_private.Querylog.File.Reads.{IsPlain}
use null_private.Querylog.File.Seeks.{IsLog, probe_of, line_from}

eqb_ℤ-self : (a : ℤ) → eqb_ℤ a a ≡ true
eqb_ℤ-self (pos a) = ground arith
eqb_ℤ-self (negsuc a) = ground arith

ltb_ℤ-not_eqb :
    (a b : ℤ) → ltb_ℤ a b ≡ true → (eqb_ℤ a b ≡ false) × (eqb_ℤ b a ≡ false) × (ltb_ℤ b a ≡ false)
ltb_ℤ-not_eqb (pos a) (pos b) h = ground arith
ltb_ℤ-not_eqb (pos a) (negsuc b) h = ground arith
ltb_ℤ-not_eqb (negsuc a) (pos b) h = ground arith
ltb_ℤ-not_eqb (negsuc a) (negsuc b) h = ground arith

pub trichotomy : (a b : ℕ) → (a ≡ b) ⊎ ((a < b) ⊎ (b < a))
trichotomy a b = ground arith

module _ (max : ℕ) (os : OsFile) (timestamp_of : LogLine → ℤ) (content : List ℕ)
    (plain : IsPlain os content) (log : IsLog max timestamp_of content) where
  abbrev c : Buffer
  c = byte_of content

  abbrev n : ℕ
  n = length content

  abbrev line_at : ℕ → LogLine
  line_at t = line_from c n t

  module _ (t : ℕ) (starts : StartsAt c t) (t_in_file : t < n) where
    abbrev pub loop : ℕ → ℕ → ℕ → ℕ → Option ℕ → Result (ℕ × ℕ)
    loop = seek_loop max os timestamp_of (timestamp_of (line_at t)) n

    -- What the loop does after a probe.
    abbrev pub after : ℕ → ℕ → Probe → Step → Result (ℕ × ℕ)
    after rounds depth p (stop e) = error e
    after rounds depth p (found position) = ok (position, depth)
    after rounds depth p (narrow s e) = loop rounds (depth + 1) s e (some p.line_idx)

    pub loop-suc :
        (rounds depth start end : ℕ) (last : Option ℕ) (p : Probe) (step : Step)
        → read_probe_line max os (start + (end - start) / 2) ≡ some p
        → probed max os timestamp_of (timestamp_of (line_at t)) n start end last (some p) ≡ step
        → loop (suc rounds) depth start end last ≡ after rounds depth p step
    unfolding seek_loop
    loop-suc rounds depth start end last p (stop e) read next = rw (seek_loop, read, next) refl
    loop-suc rounds depth start end last p (found position) read next =
        rw (seek_loop, read, next) refl
    loop-suc rounds depth start end last p (narrow s e) read next =
        rw (seek_loop, read, next) (ap (λ o. loop rounds (depth + 1) s e (idx_of o)) read)

    -- The scope holds the line that is looked for, and not the last probe.
    pub record InScope (start end : ℕ) (last : Option ℕ) : Type 0 where
      pub starts_at : StartsAt c start
      pub ends_at : StartsAt c end
      pub start_le : start ≤ t
      pub lt_end : t < end
      pub end_le : end ≤ n
      pub outside : (l : ℕ) → last ≡ some l → start ≤ l → ¬ (l < end)

    pub compared_lem :
        (start end l e : ℕ)
        → StartsAt c l
        → l < n
        → compared max os timestamp_of
            (timestamp_of (line_at t))
            n
            start
            end
            (probe_of (line_at l) l (e + 1))
          ≡ (if nat_eqb l t
              then found (t + length (line_at t))
              else if ltb t l
              then narrow start l
              else narrow (e + 1) end)
    compared_lem start end l e l_starts l_in_file = elim (trichotomy l t) [
      | inl same ↦ ground (
        arith,
        log.stamped l l_starts l_in_file,
        ap (λ k. k + length (line_at k)) same,
        subst (λ k. eqb_ℤ (timestamp_of (line_at k)) (timestamp_of (line_at t)) ≡ true) (sym same)
            (eqb_ℤ-self (timestamp_of (line_at t))),
      )
      | inr (inl before) ↦ ground (
        arith,
        log.stamped l l_starts l_in_file,
        ltb_ℤ-not_eqb (timestamp_of (line_at l)) (timestamp_of (line_at t))
            (log.sorted l t l_starts starts before t_in_file),
      )
      | inr (inr behind) ↦ ground (
        arith,
        log.stamped l l_starts l_in_file,
        log.sorted t l starts l_starts behind l_in_file,
        ltb_ℤ-not_eqb (timestamp_of (line_at t)) (timestamp_of (line_at l))
            (log.sorted t l starts l_starts behind l_in_file),
      )
    ]

    pub validate-none :
        (start end l : ℕ) (last : Option ℕ)
        → InScope start end last
        → start ≤ l
        → l < end
        → validate_line_idx max os l last n ≡ none
    unfolding validate_line_idx
    validate-none start end l none s le lt = let h = s.end_le in ground arith
    validate-none start end l (some k) s le lt =
        let h = s.end_le in ground (arith, s.outside k refl)
