-- ===== src/Querylog/Criterion/Quick.antt =====
-- The quick test and the cache of clients, against the full test.
use null_private.Prelude.{
  Bool, true, false, ◌&&◌, Option, none, some, List, [], ◌∷◌, ◌≡◌, refl, ap, ap₂, ◌∙◌, sym, arith,
  inl, inr, Bool-cases, Option-cases,
}
use null_private.Prelude.Map.{lookup, insert, lookup-insert}
use null_private.Querylog.File.{LogLine}
use null_private.Querylog.Json.{read_json_value}
use null_private.Querylog.Criterion.{
  Client, LogEntry, SearchCriterion, SearchParams, CriterionType, ct_term, ct_filtering_status,
  ClientCache, host_key, ip_key, cid_key, pair_eq, pair_beq, pair_beq_iff, Env, ids_of, client,
  quick_match_criterion, quick_rest, quick_match, match_criterion, match_all, matches,
}

abbrev pub client_or_none : Option (Option Client) → Option Client
client_or_none none = none
client_or_none (some c) = c

module _ (env : Env) where
  -- What the finder says, no client if it fails.
  abbrev pub found_client : LogLine → LogLine → Option Client
  found_client client_id ip = client_or_none (env.find_client (ids_of client_id ip))

  -- The cache holds what the finder says.
  abbrev pub IsCached : ClientCache → Type 0
  IsCached cache =
      (client_id ip : LogLine) (c : Option Client)
      → lookup (client_id, ip) cache ≡ some c
      → found_client client_id ip ≡ c

  insert-IsCached :
      (client_id ip : LogLine) (c : Option Client) (cache : ClientCache)
      → IsCached cache
      → found_client client_id ip ≡ c
      → IsCached (insert (client_id, ip) c cache)
  insert-IsCached client_id ip c cache cached is_c id' ip' c' hit =
      let at = sym (lookup-insert (client_id, ip) (id', ip') c cache) ∙ hit in
      elim (Bool-cases (pair_beq (client_id, ip) (id', ip'))) [
        | inl same ↦
            let key = (pair_beq_iff (client_id, ip) (id', ip')).0 same in
            sym (ap (λ k. found_client k.0 k.1) key) ∙ is_c ∙ ground (arith, at, same)
        | inr other ↦ cached id' ip' c' (ground (arith, at, other))
      ]

  pub client_lem :
      (client_id ip : LogLine) (cache : ClientCache)
      → IsCached cache
      → ((client env client_id ip cache).0 ≡ found_client client_id ip)
        × IsCached (client env client_id ip cache).1
  unfolding client
  client_lem client_id ip cache cached = elim (Option-cases (lookup (client_id, ip) cache)) [
    | inr (c, hit) ↦ rw (client, hit) (sym (cached client_id ip c hit), cached)
    | inl miss ↦ elim (Option-cases (env.find_client (ids_of client_id ip))) [
      | inl e ↦ rw (client, miss, e) (refl, cached)
      | inr (c, e) ↦
          rw (client, miss, e)
            (refl, insert-IsCached client_id ip c cache cached (ap client_or_none e))
    ]
  ]

  -- The line holds the values of the entry, whose client is the one that is found for them.
  pub record Encodes (line : LogLine) (e : LogEntry) : Type 0 where
    pub is_host : read_json_value line host_key ≡ e.q_host
    pub is_ip : read_json_value line ip_key ≡ e.ip
    pub is_id : read_json_value line cid_key ≡ e.client_id
    pub is_client : e.client ≡ found_client e.client_id e.ip

  module _ (line : LogLine) (e : LogEntry) (encodes : Encodes line e) where
    -- On a term the quick test is the test, on a status it lets everything pass.
    quick_match_criterion_lem :
        (c : SearchCriterion) (cache : ClientCache)
        → IsCached cache
        → (match_criterion env c e ≡ true → (quick_match_criterion env c line cache).0 ≡ true)
          × IsCached (quick_match_criterion env c line cache).1
    unfolding quick_match_criterion match_criterion
    quick_match_criterion_lem c cache cached = go c.criterion_type refl
      where
        found :
            ((client env (read_json_value line cid_key) (read_json_value line ip_key) cache).0
              ≡ found_client (read_json_value line cid_key) (read_json_value line ip_key))
            × IsCached
                (client env (read_json_value line cid_key) (read_json_value line ip_key) cache).1
        found = client_lem (read_json_value line cid_key) (read_json_value line ip_key) cache cached

        is_found :
            (client env (read_json_value line cid_key) (read_json_value line ip_key) cache).0
            ≡ e.client
        is_found = found.0 ∙ ap₂ found_client encodes.is_id encodes.is_ip ∙ sym encodes.is_client

        go :
            (t : CriterionType)
            → c.criterion_type ≡ t
            → (match_criterion env c e ≡ true → (quick_match_criterion env c line cache).0 ≡ true)
              × IsCached (quick_match_criterion env c line cache).1
        go ct_filtering_status eq = rw (quick_match_criterion, eq) (λ h. refl, cached)
        go ct_term eq =
            rw (quick_match_criterion, match_criterion, eq)
              (λ h. cc (h, is_found, encodes.is_id, encodes.is_ip, encodes.is_host), found.1)

    quick_match-criteria :
        (criteria : List SearchCriterion) (cache : ClientCache)
        → IsCached cache
        → (match_all env criteria e ≡ true → (quick_match env criteria line cache).0 ≡ true)
          × IsCached (quick_match env criteria line cache).1
    unfolding quick_match match_all
    quick_match-criteria [] cache cached = (λ h. refl, cached)
    quick_match-criteria (c ∷ criteria) cache cached =
        let first = quick_match_criterion_lem c cache cached in
        let later =
          quick_match-criteria criteria (quick_match_criterion env c line cache).1 first.1 in
        rest (quick_match_criterion env c line cache) first later
      where
        rest :
            (r : Bool × ClientCache)
            → (match_criterion env c e ≡ true → r.0 ≡ true) × IsCached r.1
            → (match_all env criteria e ≡ true → (quick_match env criteria line r.1).0 ≡ true)
              × IsCached (quick_match env criteria line r.1).1
            → ((match_criterion env c e && match_all env criteria e) ≡ true
                → (quick_rest env r (quick_match env criteria line)).0 ≡ true)
              × IsCached (quick_rest env r (quick_match env criteria line)).1
        rest (true, after) first later = (λ h. later.0 (ground arith), later.1)
        rest (false, after) first later = (λ h. absurd (ground (arith, first.0)), first.1)

    -- On a line that holds the values of an entry, and with a cache that holds what the finder of clients
    -- says: an entry that matches the parameters passes the quick test, which leaves such a cache.
    pub quick_match-matches :
        (s : SearchParams) (cache : ClientCache)
        → IsCached cache
        → (matches env s e ≡ true → (quick_match env s.search_criteria line cache).0 ≡ true)
          × IsCached (quick_match env s.search_criteria line cache).1
    unfolding matches
    quick_match-matches s cache cached =
        let all = quick_match-criteria s.search_criteria cache cached in
        (λ h. all.0 (ground arith), all.1)
