-- ===== src/Querylog/Search/Hits.antt =====
-- What a line is to the search, without the quick test and the cache, and a step of the code on it.
use null_private.Prelude.{
  ◌≡◌, refl, ap, sym, subst, Bool, true, false, not, ◌||◌, Option, none, some, List, [], ◌∷◌, arith,
  inl, inr, Bool-cases, if◌then◌else◌,
}
use null_private.Prelude.Int.{ℤ, pos}
use null_private.Querylog.File.{LogLine, Result, ok}
use null_private.Querylog.Json.{read_qlog_timestamp}
use null_private.Querylog.Criterion.{
  Client, LogEntry, SearchParams, ClientCache, client, matches, quick_match,
}
use null_private.Querylog.Criterion.Quick.{
  found_client, IsCached, Encodes, client_lem, quick_match-matches,
}
use null_private.Querylog.Reader.{LogReader}
use null_private.Querylog.Search.{
  SearchEnv, NextEntry, of_next, of_log_line, decoded, with_found, ignores, enriched,
}

module _ (se : SearchEnv) (s : SearchParams) where
  -- The entry of a line, with its client.
  abbrev pub entry_of : LogLine → LogEntry
  entry_of line =
      enriched (found_client se.env (se.decode line).client_id (se.decode line).ip) (se.decode line)

  -- The entry, if it is neither ignored nor fails to match.
  abbrev pub hit : LogLine → Option LogEntry
  hit line =
      if se.is_ignored (entry_of line).q_host
        || ignores (entry_of line).client
        || not (matches se.env s (entry_of line))
      then none
      else some (entry_of line)

  abbrev pub with_hit : Option LogEntry → List LogEntry → List LogEntry
  with_hit none es = es
  with_hit (some e) es = e ∷ es

  abbrev pub hits : List LogLine → List LogEntry
  hits [] = []
  hits (l ∷ ls) = with_hit (hit l) (hits ls)

  abbrev pub AllEncode : List LogLine → Type 0
  AllEncode [] = Unit
  AllEncode (l ∷ ls) = Encodes se.env l (entry_of l) × AllEncode ls

  abbrev pub IsStep : LogLine → LogReader → NextEntry → Type 0
  IsStep line r next =
      ((ts : ℤ) × (next.entry ≡ ok (hit line, ts))) × (next.reader ≡ r) × IsCached se.env next.cache

  found : LogLine → Option Client
  found line = found_client se.env (se.decode line).client_id (se.decode line).ip

  with_found-IsStep :
      (line : LogLine) (r : LogReader) (cache after : ClientCache)
      → IsCached se.env cache
      → IsCached se.env after
      → IsStep line r (with_found se s (se.decode line) r cache (found line, after))
  unfolding found
  with_found-IsStep line r cache after cached cached' =
      elim (Bool-cases (se.is_ignored (se.decode line).q_host)) [
        | inl i ↦ rw i ((pos 0, refl), refl, cached)
        | inr i ↦
            elim (Bool-cases
              (ignores (found_client se.env (se.decode line).client_id (se.decode line).ip))) [
                | inl j ↦ rw (i, j) ((pos 0, refl), refl, cached')
                | inr j ↦ elim (Bool-cases (matches se.env s (entry_of line))) [
                  | inl m ↦ rw (i, j, m) (((se.decode line).time, refl), refl, cached')
                  | inr m ↦ rw (i, j, m) (((se.decode line).time, refl), refl, cached')
                ]
              ]
      ]

  decoded-IsStep :
      (line : LogLine) (r : LogReader) (cache : ClientCache)
      → IsCached se.env cache
      → IsStep line r (decoded se s (se.decode line) r cache)
  unfolding found
  decoded-IsStep line r cache cached =
      let c = client se.env (se.decode line).client_id (se.decode line).ip cache in
      let known = client_lem se.env (se.decode line).client_id (se.decode line).ip cache cached in
      subst (λ o. IsStep line r (with_found se s (se.decode line) r cache (o, c.1))) (sym known.0)
        (with_found-IsStep line r cache c.1 cached known.1)

  no_hit : (line : LogLine) → matches se.env s (entry_of line) ≡ false → none ≡ hit line
  no_hit line m = elim (Bool-cases (se.is_ignored (se.decode line).q_host)) [
    | inl i ↦ rw i refl
    | inr i ↦
        elim (Bool-cases
          (ignores (found_client se.env (se.decode line).client_id (se.decode line).ip))) [
            | inl j ↦ rw (i, j) refl
            | inr j ↦ rw (i, j, m) refl
          ]
  ]

  of_log_line-IsStep :
      (line : LogLine) (r : LogReader) (q : Bool × ClientCache)
      → (matches se.env s (entry_of line) ≡ true → q.0 ≡ true)
      → IsCached se.env q.1
      → IsStep line r (of_log_line se s line r q)
  of_log_line-IsStep line r (true, cache) pass cached = decoded-IsStep line r cache cached
  of_log_line-IsStep line r (false, cache) pass cached =
      let m : matches se.env s (entry_of line) ≡ false =
        elim (Bool-cases (matches se.env s (entry_of line))) [
          | inl h ↦ absurd (ground (arith, pass h))
          | inr h ↦ h
        ] in
      (
        (
          read_qlog_timestamp se.parse_time line,
          ap (λ o. ok (o, read_qlog_timestamp se.parse_time line)) (no_hit line m),
        ),
        refl,
        cached,
      )

  pub of_next-IsStep :
      (line : LogLine) (next : Result LogLine × LogReader) (cache : ClientCache)
      → next.0 ≡ ok line
      → Encodes se.env line (entry_of line)
      → IsCached se.env cache
      → IsStep line next.1 (of_next se s next cache)
  of_next-IsStep line next cache is_line encodes cached =
      subst (λ x. IsStep line next.1 (of_next se s (x, next.1) cache)) (sym is_line)
        (of_log_line-IsStep line next.1 (quick_match se.env s.search_criteria line cache) quick.0
          quick.1)
    where
      quick :
          (matches se.env s (entry_of line) ≡ true
            → (quick_match se.env s.search_criteria line cache).0 ≡ true)
          × IsCached se.env (quick_match se.env s.search_criteria line cache).1
      quick = quick_match-matches se.env line (entry_of line) encodes s cache cached
