-- ===== src/Querylog/File/Searches.antt =====
-- Where the binary search of qlogfile.go ends.
use null_private.Prelude.{
  ℕ, zero, suc, ◌+◌, ◌-◌, ◌/◌, ◌^◌, ◌≤◌, ◌<◌, ◌≡◌, refl, sym, ap, ap₂, ◌∙◌, subst, Option, none,
  some, List, arith, length, ltb, ◌==◌ as nat_eqb, inl, inr, if◌then◌else◌,
}
use null_private.Prelude.Int.{ℤ}
use null_private.Querylog.File.{
  Buffer, LogLine, OsFile, LogFile, Step, stop, found, narrow, Result, ok, line_start, slice,
  read_next, read_probe_line, compared, probed, seek_loop, positioned, seek_ts,
}
use null_private.Querylog.File.Scan.{
  StartsAt, byte_of, line_start-le, line_start-StartsAt, le-line_start, line_end_lem, length-slice,
}
use null_private.Querylog.File.Reads.{IsPlain}
use null_private.Querylog.File.Lines.{read_next-ok}
use null_private.Querylog.File.Seeks.{
  IsLog, Around, around, read_probe_line-Around, probe_of, line_from,
}
use null_private.Querylog.File.Steps.{
  trichotomy, after, loop-suc, InScope, compared_lem, validate-none,
}

module _ (max : ℕ) (os : OsFile) (timestamp_of : LogLine → ℤ) (content : List ℕ)
    (plain : IsPlain os content) (log : IsLog max timestamp_of content) where
  abbrev c : Buffer
  c = byte_of content

  abbrev n : ℕ
  n = length content

  abbrev line_at : ℕ → LogLine
  line_at t = line_from c n t

  module _ (t : ℕ) (starts : StartsAt c t) (t_in_file : t < n) where
    abbrev loop : ℕ → ℕ → ℕ → ℕ → Option ℕ → Result (ℕ × ℕ)
    loop = seek_loop max os timestamp_of (timestamp_of (line_at t)) n

    abbrev Scope : ℕ → ℕ → Option ℕ → Type 0
    Scope = InScope max os timestamp_of content plain log t starts t_in_file

    -- The search ends at the line, after no more comparisons than there are rounds.
    abbrev EndsAt : ℕ → ℕ → Result (ℕ × ℕ) → Type 0
    EndsAt depth rounds r = (d : ℕ) × (r ≡ ok (t + length (line_at t), d)) × (d < depth + rounds)

    module _ (start end : ℕ) (last : Option ℕ) (s : Scope start end last) (p e : ℕ)
        (a : Around max os timestamp_of content plain log p e)
        (mid : p ≡ start + (end - start) / 2) where
      l : ℕ
      l = line_start c p

      start-le-line : start ≤ l
      unfolding l
      start-le-line = let h = s.lt_end in le-line_start c start p s.starts_at (omega arith)

      end-le : e + 1 ≤ end
      unfolding l
      end-le = elim (trichotomy e (end - 1)) [
        | inl same ↦ let h = s.lt_end in omega arith
        | inr (inl before) ↦ omega arith
        | inr (inr behind) ↦
            let h : (start ≤ t) × (t < end) = (s.start_le, s.lt_end) in
            absurd (
              a.unbroken (end - 1) (omega (arith, a.start_le)) behind
                (s.ends_at (end - 1) (omega arith)))
      ]

      e-StartsAt : StartsAt c (e + 1)
      e-StartsAt i eq = let same : i ≡ e = omega arith in ap c same ∙ a.breaks

      -- A line that starts past `l` starts past its end.
      past_end : l < t → e < t
      unfolding l
      past_end lt = elim (trichotomy e t) [
        | inl same ↦
            absurd (a.unbroken (t - 1) (omega arith) (omega arith) (starts (t - 1) (omega arith)))
        | inr (inl before) ↦ before
        | inr (inr behind) ↦
            absurd (a.unbroken (t - 1) (omega arith) (omega arith) (starts (t - 1) (omega arith)))
      ]

      to_left : t < l → Scope start l (some l)
      unfolding l
      to_left lt = record {
        starts_at = s.starts_at;
        ends_at = line_start-StartsAt c p;
        start_le = s.start_le;
        lt_end = lt;
        end_le = omega (arith, a.start_le, a.le_end, a.in_file);
        outside = λ k e le h. ground arith;
      }

      to_right : l < t → Scope (e + 1) end (some l)
      unfolding l
      to_right lt = record {
        starts_at = e-StartsAt;
        ends_at = s.ends_at;
        start_le = omega (arith, past_end lt);
        lt_end = s.lt_end;
        end_le = s.end_le;
        outside = λ k is_k le h. ground (arith, a.start_le, a.le_end);
      }

      probed_lem :
          probed max os timestamp_of
            (timestamp_of (line_at t))
            n
            start
            end
            last
            (some (probe_of (line_at l) l (e + 1)))
          ≡ (if nat_eqb l t
              then found (t + length (line_at t))
              else if ltb t l
              then narrow start l
              else narrow (e + 1) end)
      unfolding l
      probed_lem =
          let in_file : l < n = omega (arith, a.start_le, a.le_end, a.in_file) in
          let valid =
            validate-none max os timestamp_of content plain log t starts t_in_file start end l last
              s start-le-line (omega (arith, a.start_le, a.le_end, end-le)) in
          ap
            (λ v. elim v as (λ _. Step) [
              | some e' ↦ stop e'
              | none ↦
                  compared max os timestamp_of (timestamp_of (line_at t)) n start end
                    (probe_of (line_at l) l (e + 1))
            ])
            valid
          ∙ compared_lem max os timestamp_of content plain log t starts t_in_file start end l e
              (line_start-StartsAt c p) in_file

      loop-eq :
          (rounds depth : ℕ) (step : Step)
          → (if nat_eqb l t
              then found (t + length (line_at t))
              else if ltb t l
              then narrow start l
              else narrow (e + 1) end)
            ≡ step
          → loop (suc rounds) depth start end last
            ≡ after max os timestamp_of content plain log t starts t_in_file rounds depth
                (probe_of (line_at l) l (e + 1))
                step
      unfolding l
      loop-eq rounds depth step eq =
          loop-suc max os timestamp_of content plain log t starts t_in_file rounds depth start end
            last (probe_of (line_at l) l (e + 1)) step
            (ap (read_probe_line max os) (sym mid)
              ∙ read_probe_line-Around max os timestamp_of content plain log p e a)
            (probed_lem ∙ eq)

      -- The scope that is left is less than half as wide.
      loop-narrow :
          (rounds depth : ℕ)
          → end - start < 2 ^ suc rounds
          → ((start' end' : ℕ)
              → Scope start' end' (some l)
              → end' - start' < 2 ^ rounds
              → EndsAt (depth + 1) rounds (loop rounds (depth + 1) start' end' (some l)))
          → EndsAt depth (suc rounds) (loop (suc rounds) depth start end last)
      unfolding l
      loop-narrow rounds depth small go =
          let h : (start ≤ l) × (l ≤ p) × (p ≤ e) × (e + 1 ≤ end) =
            (start-le-line, a.start_le, a.le_end, end-le) in
          elim (trichotomy l t) [
            | inl same ↦ (
              depth,
              loop-eq rounds depth (found (t + length (line_at t))) (ground arith),
              omega arith,
            )
            | inr (inl before) ↦
                let r = go (e + 1) end (to_right before) (omega arith) in
                (
                  r.0,
                  loop-eq rounds depth (narrow (e + 1) end) (ground arith) ∙ r.1,
                  omega (arith, r.2),
                )
            | inr (inr behind) ↦
                let r = go start l (to_left behind) (omega arith) in
                (
                  r.0,
                  loop-eq rounds depth (narrow start l) (ground arith) ∙ r.1,
                  omega (arith, r.2),
                )
          ]

    loop_lem :
        (rounds depth start end : ℕ) (last : Option ℕ)
        → Scope start end last
        → end - start < 2 ^ rounds
        → EndsAt depth rounds (loop rounds depth start end last)
    loop_lem zero depth start end last s small =
        let h = s.start_le in let k = s.lt_end in absurd (omega arith)
    loop_lem (suc rounds) depth start end last s small =
        let p : ℕ = start + (end - start) / 2 in
        let in_file : p < n = let h = s.lt_end in let k = s.end_le in omega arith in
        let ends = log.ended p in_file in
        loop-narrow start end last s p ends.0
          (around max os timestamp_of content plain log p ends.0 ends.1 ends.2 in_file) refl rounds
          depth small (λ start' end' s' small'. loop_lem rounds (depth + 1) start' end' _ s' small')

    n-StartsAt : StartsAt c n
    n-StartsAt i eq =
        let ends = log.ended i (omega arith) in
        let e = line_end_lem c i (n - i) ends.0 ends.1 in
        let same : ends.0 ≡ i = omega arith in sym (ap c same) ∙ e.2

    whole : Scope 0 n none
    whole = record {
      starts_at = λ i eq. absurd (omega arith);
      ends_at = n-StartsAt;
      start_le = omega arith;
      lt_end = t_in_file;
      end_le = omega arith;
      outside = λ l eq. absurd (ground arith);
    }

    seek_ts-positioned :
        (q : LogFile) (d : ℕ)
        → loop 100 0 0 n none ≡ ok (t + length (line_at t), d)
        → seek_ts max os timestamp_of (timestamp_of (line_at t)) q ≡ (
          ok (t + length (line_at t), d),
          record q { buffer = none; position = t + length (line_at t) },
        )
    unfolding seek_ts
    seek_ts-positioned q d eq =
        rw (seek_ts, plain.sized) (ap (λ r. positioned max os r (record q { buffer = none })) eq)

    line_end_of :
        (e : ℕ)
        → Around max os timestamp_of content plain log t e
        → (t + length (line_at t) ≡ e) × (line_start c e ≡ t) × (line_at t ≡ slice c t (e - t))
    line_end_of e a =
        let same : line_start c t ≡ t =
          omega (arith, a.start_le, le-line_start c t t starts (omega arith)) in
        let is_line : line_at t ≡ slice c t (e - t) =
          subst (λ k. line_at k ≡ slice c k (e - k)) same a.is_line in
        let le : t ≤ line_start c e = le-line_start c t e starts a.le_end in
        let upto : line_start c e ≤ e = line_start-le c e in
        let within : ¬ (t < line_start c e) = λ h.
          a.unbroken (line_start c e - 1) (omega arith) (omega arith)
            (line_start-StartsAt c e (line_start c e - 1) (omega arith)) in
        let long : t ≤ e = a.le_end in
        (omega (arith, ap length is_line, length-slice c t (e - t)), omega arith, is_line)

    -- In a log (lines that all end, shorter than `max`, each with a time stamp later than those before
    -- it) of less than 2^63 bytes, the search for the time stamp of the line at `t`, which is not
    -- empty, succeeds with less than 100 comparisons, wherever the file was read before, and the next
    -- read returns that line.
    pub read_next-seek_ts :
        (q : LogFile)
        → n < 2 ^ 63
        → 0 < length (line_at t)
        → (d : ℕ) × (d < 100)
          × ((seek_ts max os timestamp_of (timestamp_of (line_at t)) q).0
              ≡ ok (t + length (line_at t), d))
          × ((read_next max os (seek_ts max os timestamp_of (timestamp_of (line_at t)) q).1).0
              ≡ ok (line_at t))
    read_next-seek_ts q small some_bytes =
        let found_at = loop_lem 100 0 0 n none whole (omega arith) in
        let ends = log.ended t t_in_file in
        let a = around max os timestamp_of content plain log t ends.0 ends.1 ends.2 t_in_file in
        let line = line_end_of ends.0 a in
        let seek = seek_ts-positioned q found_at.0 found_at.1 in
        let q' : LogFile = record q { buffer = none; position = t + length (line_at t) } in
        let in_file : ends.0 < n = a.in_file in
        let same : line_start c t ≡ t =
          omega (arith, a.start_le, le-line_start c t t starts (omega arith)) in
        let start : line_start c (t + length (line_at t)) ≡ t = ap (line_start c) line.0 ∙ line.1 in
        let short : ends.0 < line_start c t + max = a.short in
        let read =
          read_next-ok max os content plain q' (omega arith) (omega (arith, line.0))
            (omega (arith, line.0)) (omega arith) (λ b i e h. absurd (ground arith)) in
        (
          found_at.0,
          omega (arith, found_at.2),
          ap (λ r. r.0) seek,
          ap (λ r. (read_next max os r.1).0) seek
              ∙ read.0
              ∙ ap ok (ap₂ (slice c) start (omega (arith, line.0)) ∙ sym line.2),
        )
