-- ===== src/Router/Permuted.antt =====
-- internal/router/router.go: orderBatchResponses gives each request the response with its id, and keeps
-- the order where the responses are not those of the requests.
use sabre.Common.{
  ◌+◌, ◌≡◌, ◌⊎◌, inl, inr, refl, sym, ◌∙◌, List, map, Option, none, some, arith, ◌==◌, ==_iff,
  length, replicate, length-replicate, length-map, Text, Bool-cases,
}
use sabre.Router.{normalize_id, has_duplicate, place, or_unordered, order_batch_responses}
use sabre.Router.Order.{
  AreMatched, count_set, IsPlaced, place-IsPlaced, AreMatched-replicate, count_set-replicate,
}
use sabre.Router.Place.{AreDistinct, has_duplicate-AreDistinct, has_duplicate-repeats}
use sabre.Router.Slots.{AreOwn, place-AreOwn, AreOwn-place, AreOwn-AreFree}

module _ (R : Type 0) (id_of : R → Option Text) where
  -- The responses are those of the requests, in some order: as many, the ids of the requests all
  -- different, and each response with the id of a request that no other response has.
  pub record IsPermutation (responses : List R) (request_ids : List Text) : Type 0 where
    pub as_many : length responses ≡ length request_ids
    pub distinct : AreDistinct (map normalize_id request_ids)
    pub own : AreOwn R id_of (map normalize_id request_ids) responses

  -- One slot for each request, all filled, each with a response with the id of its request.
  pub record IsMatched (request_ids : List Text) (out : List (Option R)) : Type 0 where
    pub size : length out ≡ length request_ids
    pub filled : count_set R id_of out ≡ length request_ids
    pub matched : AreMatched R id_of (map normalize_id request_ids) out

  module _ (responses : List R) (request_ids : List Text) where
    -- What orderBatchResponses promises of its result.
    abbrev pub IsInOrder : List (Option R) → Type 0
    IsInOrder out =
        (IsPermutation responses request_ids × IsMatched request_ids out)
        ⊎ ((¬ (IsPermutation responses request_ids)) × (out ≡ map (λ (r : R). some r) responses))

    -- Before the last loop.
    abbrev slots : List (Option R)
    slots = replicate (length request_ids) none

    placed :
        (out : List (Option R))
        → place R id_of (map normalize_id request_ids) responses slots ≡ some out
        → length responses ≡ length request_ids
        → IsMatched request_ids out
    placed out e n =
        let ids : List Text = map normalize_id request_ids in
        let all : IsPlaced R id_of ids (0 + length responses) out =
          place-IsPlaced R id_of ids responses slots out 0 e (record {
            size =
                length-replicate (length request_ids) none
                ∙ sym (length-map normalize_id request_ids);
            filled = count_set-replicate R id_of (length request_ids);
            matched = AreMatched-replicate R id_of ids (length request_ids);
          }) in
        record {
          size = all.size ∙ length-map normalize_id request_ids;
          filled = all.filled ∙ omega (arith, n);
          matched = all.matched;
        }

    loop-IsInOrder :
        (o : Option (List (Option R)))
        → place R id_of (map normalize_id request_ids) responses slots ≡ o
        → length responses ≡ length request_ids
        → AreDistinct (map normalize_id request_ids)
        → IsInOrder (or_unordered R id_of responses o)
    unfolding or_unordered
    loop-IsInOrder none e n d = inr (
      λ p.
          let ids : List Text = map normalize_id request_ids in
          let found =
            AreOwn-place R id_of ids responses slots p.own
              (AreOwn-AreFree R id_of ids (length request_ids) responses p.own) in
          let z : none ≡ some found.0 = sym e ∙ found.1 in absurd (ground arith),
      refl,
    )
    loop-IsInOrder (some out) e n d =
        let ids : List Text = map normalize_id request_ids in
        let size : length slots ≡ length ids =
          length-replicate (length request_ids) none ∙ sym (length-map normalize_id request_ids) in
        inl (
          record {
            as_many = n;
            distinct = d;
            own = (place-AreOwn R id_of ids responses slots out size e).0;
          },
          placed out e n,
        )

    -- Where the responses are those of the requests in some order (as many; the normalized ids of the
    -- requests all different; each response with the id of a request that no other response has),
    -- orderBatchResponses returns one slot for each request, each filled with a response with the id
    -- of its request; where they are not, it returns the responses as they came.
    pub order_batch_responses-IsInOrder :
        IsInOrder (order_batch_responses R id_of responses request_ids)
    unfolding order_batch_responses or_unordered
    order_batch_responses-IsInOrder = elim (Bool-cases (length responses == length request_ids)) [
      | inr e ↦ rw e (
          inr (
            λ p.
                let y = (==_iff (length responses) (length request_ids)).1 p.as_many in
                absurd (ground arith),
            refl,
          ))
      | inl e ↦ elim (Bool-cases (has_duplicate (map normalize_id request_ids))) [
        | inl d ↦
            rw (e, d)
              (inr (λ p. has_duplicate-repeats (map normalize_id request_ids) d p.distinct, refl))
        | inr d ↦
            rw (e, d)
              (loop-IsInOrder (place R id_of (map normalize_id request_ids) responses slots) refl
                ((==_iff (length responses) (length request_ids)).0 e)
                (has_duplicate-AreDistinct (map normalize_id request_ids) d))
      ]
    ]
