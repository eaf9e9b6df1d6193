-- ===== src/Querylog/Store/Keeps.antt =====
-- What becomes of the entries that are added.
use null_private.Prelude.{
  ℕ, zero, suc, ◌≤◌, ◌<◌, ◌≡◌, refl, ap, ◌∙◌, sym, subst, Bool, true, false, Option, none, some,
  List, [], ◌∷◌, ◌++◌, map, length, take, arith, leb, ◌==◌ as nat_eqb, inl, inr, Bool-cases,
}
use null_private.Prelude.Int.{ℤ}
use null_private.Querylog.File.{LogLine}
use null_private.Querylog.Criterion.{LogEntry}
use null_private.Querylog.Store.{
  RingBuffer, QueryLog, AddParams, validate_params, new_log_entry, pushed, add, encode_entries,
  lines_of, flush_log_buffer,
}

take_all : {A : Type 0} (n : ℕ) (xs : List A) → length xs ≤ n → take n xs ≡ xs
take_all zero [] h = refl
take_all zero (x ∷ xs) h = absurd (omega arith)
take_all (suc n) [] h = refl
take_all (suc n) (x ∷ xs) h = ap (◌∷◌ x) (take_all n xs (omega arith))

module _ {B : Type 0} (ring : RingBuffer B) (normalize : LogLine → LogLine)
    (encode : LogEntry → Option LogLine) (parse_time : LogLine → Option ℤ)
    (line_of : LogEntry → LogLine) (encodes : (e : LogEntry) → encode e ≡ some (line_of e)) where
  -- A request that is added, and the flush that it may start, before the next one.
  abbrev pub flushed : Bool × QueryLog B → QueryLog B
  flushed (false, l) = l
  flushed (true, l) = (flush_log_buffer ring normalize encode parse_time true l).1

  unfoldable pub add_flushed : AddParams → QueryLog B → QueryLog B
  add_flushed p l = flushed (add ring normalize encode parse_time p l)

  unfoldable pub add_all : List AddParams → QueryLog B → QueryLog B
  add_all [] l = l
  add_all (p ∷ ps) l = add_all ps (add_flushed p l)

  -- The lines that are in the file or will be, the newest first.
  abbrev pub recorded : QueryLog B → List LogLine
  recorded l = map line_of (ring.range l.buffer) ++ lines_of l.log_file

  unfoldable pub lines_onto : List AddParams → List LogLine → List LogLine
  lines_onto [] lines = lines
  lines_onto (p ∷ ps) lines =
      lines_onto ps (line_of (new_log_entry ring normalize encode parse_time p) ∷ lines)

  -- The log is kept in a file, no flush is under way, and the buffer has room for an entry.
  pub record HasRoom (l : QueryLog B) : Type 0 where
    pub enabled : l.conf.enabled ≡ true
    pub file_enabled : l.conf.file_enabled ≡ true
    pub not_pending : l.flush_pending ≡ false
    pub fits : l.conf.mem_size ≤ ring.capacity l.buffer
    pub room : length (ring.range l.buffer) < ring.capacity l.buffer

  abbrev AllValid : List AddParams → Type 0
  AllValid [] = Unit
  AllValid (p ∷ ps) = (validate_params p ≡ none) × AllValid ps

  encode_entries-map :
      (es : List LogEntry)
      → encode_entries ring normalize encode parse_time es ≡ some (map line_of es)
  unfolding encode_entries
  encode_entries-map [] = refl
  encode_entries-map (e ∷ es) = rw (encodes e, encode_entries-map es) refl

  module _ (l : QueryLog B) (has_room : HasRoom l) (e : LogEntry) where
    b : B
    b = ring.push e l.buffer

    range-b : ring.range b ≡ e ∷ ring.range l.buffer
    unfolding b
    range-b =
        let h = has_room.room in
        ring.range-push e l.buffer
        ∙ take_all (ring.capacity l.buffer) (e ∷ ring.range l.buffer) (omega arith)

    -- The state with the entry in the buffer, and the one with the buffer in the file.
    kept : Bool → QueryLog B
    kept pending = record l { buffer = b; flush_pending = pending }

    written : QueryLog B
    written = record l {
      buffer = ring.clear b;
      flush_pending = false;
      log_file = some (map line_of (ring.range b) ++ lines_of l.log_file);
    }

    is_full : Bool
    is_full = leb l.conf.mem_size (length (ring.range b))

    pushed-eq : pushed ring normalize encode parse_time e l ≡ (is_full, kept is_full)
    unfolding b kept is_full
    pushed-eq = rw (has_room.not_pending, has_room.file_enabled) refl

    flush-eq : (flush_log_buffer ring normalize encode parse_time true (kept true)).1 ≡ written
    unfolding kept written flush_log_buffer
    flush-eq =
        let some_entry : nat_eqb (length (ring.range b)) 0 ≡ false = ground (arith, range-b) in
        rw (flush_log_buffer, some_entry, encode_entries-map (ring.range b)) refl

    kept-HasRoom : is_full ≡ false → HasRoom (kept false)
    unfolding kept is_full b
    kept-HasRoom h = record {
      enabled = has_room.enabled;
      file_enabled = has_room.file_enabled;
      not_pending = refl;
      fits = let f = has_room.fits in omega (arith, ring.capacity-push e l.buffer);
      room = let f = has_room.fits in ground (arith, h, ring.capacity-push e l.buffer);
    }

    written-HasRoom : HasRoom written
    unfolding written b
    written-HasRoom =
        let f = has_room.fits in
        let r = has_room.room in
        let same : ring.capacity (ring.clear (ring.push e l.buffer)) ≡ ring.capacity l.buffer =
          ring.capacity-clear (ring.push e l.buffer) ∙ ring.capacity-push e l.buffer in
        record {
          enabled = has_room.enabled;
          file_enabled = has_room.file_enabled;
          not_pending = refl;
          fits = omega arith;
          room = omega (arith, ap length (ring.range-clear (ring.push e l.buffer)));
        }

    -- The push of an entry, with the flush that it may start.
    abbrev IsKept : QueryLog B → Type 0
    IsKept l' = HasRoom l' × (recorded l' ≡ line_of e ∷ recorded l)

    pushed-IsKept : IsKept (flushed (pushed ring normalize encode parse_time e l))
    unfolding kept written b
    pushed-IsKept =
        subst (λ r. IsKept (flushed r)) (sym pushed-eq)
          (elim (Bool-cases is_full) [
            | inl full ↦
                subst (λ s. IsKept (flushed (s, kept s))) (sym full)
                  (subst IsKept (sym flush-eq) (
                    written-HasRoom,
                    ap (λ es. map line_of es ++ (map line_of (ring.range b) ++ lines_of l.log_file))
                          (ring.range-clear b)
                        ∙ ap (λ es. map line_of es ++ lines_of l.log_file) range-b,
                  ))
            | inr some_room ↦
                subst (λ s. IsKept (flushed (s, kept s))) (sym some_room)
                  (kept-HasRoom some_room, ap (λ es. map line_of es ++ lines_of l.log_file) range-b)
          ])

  add_flushed_lem :
      (p : AddParams) (l : QueryLog B)
      → HasRoom l
      → validate_params p ≡ none
      → HasRoom (add_flushed p l)
        × (recorded (add_flushed p l)
            ≡ line_of (new_log_entry ring normalize encode parse_time p) ∷ recorded l)
  unfolding add_flushed add
  add_flushed_lem p l has_room valid =
      rw (add, has_room.enabled, valid)
        (pushed-IsKept l has_room (new_log_entry ring normalize encode parse_time p))

  -- When entries can be encoded and the file written, the log is enabled and kept in a file, the buffer
  -- has room for an entry, no flush is under way and each flush runs before the next request: after
  -- any valid requests, the lines of the file and those of the buffer are those of the requests, each
  -- once and in their order, behind those that were there, and the buffer has room again.
  pub add_all-recorded :
      (ps : List AddParams) (l : QueryLog B)
      → HasRoom l
      → AllValid ps
      → HasRoom (add_all ps l) × (recorded (add_all ps l) ≡ lines_onto ps (recorded l))
  unfolding add_all lines_onto
  add_all-recorded [] l has_room valid = (has_room, refl)
  add_all-recorded (p ∷ ps) l has_room valid =
      let first = add_flushed_lem p l has_room valid.0 in
      let later = add_all-recorded ps (add_flushed p l) first.0 valid.1 in
      (later.0, later.1 ∙ ap (lines_onto ps) first.1)
