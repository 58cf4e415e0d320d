-- ===== src/Cache/Plan/Merged.antt =====
-- internal/backend/cache.go: a multicall that was served in part is completed to the answer of the whole.
use sabre.Common.{
  ℕ, suc, zero, ◌+◌, ◌≡◌, refl, sym, ap, subst, ◌∙◌, Bool, true, false, ◌||◌, List, [], ◌∷◌, ◌++◌,
  map, append_assoc, Option, none, some, arith, ◌==◌, if◌then◌else◌, length, length-map,
  length-append, set, get_or, Text,
}
use sabre.Json.{Json, Raw}
use sabre.Multicall.Encode.{Call3, MulticallResult, encode_aggregate3, encode_aggregate3_result}
use sabre.Multicall.Decode.{Outcome, ok, refused, panic}
use sabre.Multicall.Params.{ParsedEthCall}
use sabre.Cache.Reply.{rpc_result, build_multicall_body}
use sabre.Multicall.Aggregate.{call_params}
use sabre.Cache.SubCalls.{cache_sub_call}
use sabre.Cache.Store.{Tiers, Store}
use sabre.Cache.Plan.{
  MulticallPlan, no_result, no_call, Probed, add_probed, plan_probe, plan_calls, plan_of,
  merge_misses, complete_decoded,
}

-- What is known of each call of a multicall: its result in the cache, if any.
abbrev pub Known : Type 0
Known = List (Option MulticallResult)

-- The calls of which nothing is known.
abbrev pub missed : List Call3 → Known → List Call3
missed [] ps = []
missed (c ∷ cs) [] = []
missed (c ∷ cs) (none ∷ ps) = c ∷ missed cs ps
missed (c ∷ cs) (some r ∷ ps) = missed cs ps

-- The answer to each call: what is known, and else what executing it gives.
abbrev pub answered : (Call3 → MulticallResult) → List Call3 → Known → List MulticallResult
answered execute [] ps = []
answered execute (c ∷ cs) [] = []
answered execute (c ∷ cs) (none ∷ ps) = execute c ∷ answered execute cs ps
answered execute (c ∷ cs) (some r ∷ ps) = r ∷ answered execute cs ps

abbrev pub base : Known → List MulticallResult
base [] = []
base (none ∷ ps) = no_result ∷ base ps
base (some r ∷ ps) = r ∷ base ps

abbrev pub positions : ℕ → Known → List ℕ
positions i [] = []
positions i (none ∷ ps) = i ∷ positions (i + 1) ps
positions i (some r ∷ ps) = positions (i + 1) ps

set-append :
    (pre post : List MulticallResult) (x r : MulticallResult) (i : ℕ)
    → i ≡ length pre
    → set (pre ++ x ∷ post) i r ≡ pre ++ r ∷ post
set-append [] post x r zero e = refl
set-append [] post x r (suc i) e = absurd (omega arith)
set-append (y ∷ pre) post x r zero e = absurd (omega arith)
set-append (y ∷ pre) post x r (suc i) e = ap (◌∷◌ y) (set-append pre post x r i (omega arith))

length-positions :
    (i : ℕ) (calls : List Call3) (ps : Known)
    → length ps ≡ length calls
    → length (positions i ps) ≡ length (missed calls ps)
length-positions i [] [] h = refl
length-positions i [] (p ∷ ps) h = absurd (omega arith)
length-positions i (c ∷ cs) [] h = absurd (omega arith)
length-positions i (c ∷ cs) (none ∷ ps) h = ap suc (length-positions (i + 1) cs ps (omega arith))
length-positions i (c ∷ cs) (some r ∷ ps) h = length-positions (i + 1) cs ps (omega arith)

-- The plan keeps what the loop found.
abbrev pub IsPlan : Raw → Known → MulticallPlan → Type 0
IsPlan id ps plan = plan.id ≡ id × plan.results ≡ base ps × plan.miss_indices ≡ positions 0 ps

pub plan_of-IsPlan :
    (id : Raw) (calls : List Call3) (parsed : ParsedEthCall) (p : Probed) (ps : Known)
    (plan : MulticallPlan)
    → p.results ≡ base ps
    → p.miss_indices ≡ positions 0 ps
    → plan_of id calls parsed p ≡ some plan
    → IsPlan id ps plan
unfolding plan_of
plan_of-IsPlan id calls parsed p ps plan r m e =
    go (length p.miss == 0 || length p.miss == length calls) e
  where
    whole : MulticallPlan
    whole = record {
      id = id;
      calls = calls;
      results = p.results;
      miss_indices = p.miss_indices;
      reduced_body =
          build_multicall_body id
            (call_params parsed.params.to parsed.block_tag (encode_aggregate3 p.miss));
    }

    go : (b : Bool) → (if b then none else some whole) ≡ some plan → IsPlan id ps plan
    go true h = absurd (ground arith)
    go false h =
        let same : whole ≡ plan = cc in
        subst (λ (x : MulticallPlan). IsPlan id ps x) same (refl, r, m)

-- The result of completing a plan: a response and the store, in which this is the response.
abbrev pub Completes : (T : Tiers) → Raw → Outcome (Option Raw × Store T) → Type 0
Completes T response (ok (some r, s)) = r ≡ response
Completes T response (ok (none, s)) = ⊥
Completes T response refused = ⊥
Completes T response panic = ⊥

module _ (T : Tiers) (sha256 : Text → Text) (compact : Json → Text) where
  -- What the cache knows of the calls when they are planned, from call `i` on.
  unfoldable pub known : (ℕ → ℕ) → ℕ → Text → List Call3 → Store T → Known
  known clock i chain [] s = []
  known clock i chain (c ∷ cs) s =
      let p = plan_probe T sha256 compact clock i chain c s in
      p.0 ∷ known clock (i + 1) chain cs p.1

  pub plan_calls-known :
      (clock : ℕ → ℕ) (i : ℕ) (chain : Text) (calls : List Call3) (s : Store T)
      → (plan_calls T sha256 compact clock i chain calls s).0 ≡ record {
        results = base (known clock i chain calls s);
        miss_indices = positions i (known clock i chain calls s);
        miss = missed calls (known clock i chain calls s);
      }
  unfolding plan_calls known add_probed
  plan_calls-known clock i chain [] s = refl
  plan_calls-known clock i chain (c ∷ cs) s =
      let p = plan_probe T sha256 compact clock i chain c s in
      ap (add_probed i c p.0) (plan_calls-known clock (i + 1) chain cs p.1)
      ∙ added p.0 (known clock (i + 1) chain cs p.1)
    where
      added :
          (o : Option MulticallResult) (ps : Known)
          → add_probed i c o (record {
            results = base ps;
            miss_indices = positions (i + 1) ps;
            miss = missed cs ps;
          })
            ≡ record {
              results = base (o ∷ ps);
              miss_indices = positions i (o ∷ ps);
              miss = missed (c ∷ cs) (o ∷ ps);
            }
      added none ps = refl
      added (some r) ps = refl

  merge_misses-answered :
      (clock : ℕ → ℕ) (j : ℕ) (chain : Text) (all calls : List Call3) (ps : Known)
      (execute : Call3 → MulticallResult) (pre : List MulticallResult) (i : ℕ) (s : Store T)
      → i ≡ length pre
      → length ps ≡ length calls
      → (merge_misses T sha256 compact clock j chain all
          (positions i ps)
          (map execute (missed calls ps))
          (pre ++ base ps, s)).0
        ≡ pre ++ answered execute calls ps
  unfolding merge_misses
  merge_misses-answered clock j chain all [] [] execute pre i s e h = refl
  merge_misses-answered clock j chain all [] (p ∷ ps) execute pre i s e h = absurd (omega arith)
  merge_misses-answered clock j chain all (c ∷ cs) [] execute pre i s e h = absurd (omega arith)
  merge_misses-answered clock j chain all (c ∷ cs) (none ∷ ps) execute pre i s e h =
      let r = execute c in
      let kept = cache_sub_call T sha256 compact (clock j) chain (get_or all i no_call) r s in
      let one : i + 1 ≡ length (pre ++ r ∷ []) = omega (arith, length-append pre (r ∷ [])) in
      ap
        (λ (rs : List MulticallResult).
          (merge_misses T sha256 compact clock (j + 1) chain all (positions (i + 1) ps)
            (map execute (missed cs ps)) (rs, kept)).0)
        (set-append pre (base ps) no_result r i e ∙ sym (append_assoc pre (r ∷ []) (base ps)))
      ∙ merge_misses-answered clock (j + 1) chain all cs ps execute (pre ++ r ∷ []) (i + 1) kept one
          (omega arith)
      ∙ append_assoc pre (r ∷ []) (answered execute cs ps)
  merge_misses-answered clock j chain all (c ∷ cs) (some r ∷ ps) execute pre i s e h =
      let one : i + 1 ≡ length (pre ++ r ∷ []) = omega (arith, length-append pre (r ∷ [])) in
      ap
        (λ (rs : List MulticallResult).
          (merge_misses T sha256 compact clock j chain all (positions (i + 1) ps)
            (map execute (missed cs ps)) (rs, s)).0)
        (sym (append_assoc pre (r ∷ []) (base ps)))
      ∙ merge_misses-answered clock j chain all cs ps execute (pre ++ r ∷ []) (i + 1) s one
          (omega arith)
      ∙ append_assoc pre (r ∷ []) (answered execute cs ps)

  pub length-known :
      (clock : ℕ → ℕ) (i : ℕ) (chain : Text) (calls : List Call3) (s : Store T)
      → length (known clock i chain calls s) ≡ length calls
  unfolding known
  length-known clock i chain [] s = refl
  length-known clock i chain (c ∷ cs) s =
      ap suc (length-known clock (i + 1) chain cs (plan_probe T sha256 compact clock i chain c s).1)

  pub complete_decoded-answered :
      (clock : ℕ → ℕ) (chain : Text) (plan : MulticallPlan) (calls : List Call3) (ps : Known)
      (execute : Call3 → MulticallResult) (id : Raw) (s : Store T)
      → IsPlan id ps plan
      → length ps ≡ length calls
      → Completes T (rpc_result id (encode_aggregate3_result (answered execute calls ps))) (
          complete_decoded T sha256 compact clock chain plan (ok (map execute (missed calls ps))) s)
  unfolding complete_decoded
  complete_decoded-answered clock chain plan calls ps execute id s h n =
      let size : length (map execute (missed calls ps)) ≡ length (positions 0 ps) =
        length-map execute (missed calls ps) ∙ sym (length-positions 0 calls ps n) in
      let fits : (length (map execute (missed calls ps)) == length (positions 0 ps)) ≡ true =
        ground (arith, size) in
      let merged : (merge_misses T sha256 compact clock 0 chain plan.calls (positions 0 ps)
            (map execute (missed calls ps)) (base ps, s)).0
          ≡ answered execute calls ps =
        merge_misses-answered clock 0 chain plan.calls calls ps execute [] 0 s refl n in
      rw (h.0, h.1, h.2, fits, merged) refl
