-- ===== src/Balancer/Member.antt =====
-- internal/backend/balancer.go: lb.backends and lb.weights. The two maps hold, for each chain, two
-- slices of one length; here a chain has one list of backends with their weights.
use sabre.Common.{List, [], ◌∷◌, ◌++◌, map, if◌then◌else◌, Text, text_eq}
use sabre.Float.{FloatOps}
use sabre.Backend.{Backend}

module _ (Fl : FloatOps) where
  open Fl use {F, one_f}

  pub record Member : Type 0 where
    pub backend : Backend
    pub weight : F

  abbrev pub Pools : Type 0
  Pools = List (Text × List Member)

  -- lb.backends[chain], and lb.weights[chain]; the zero value of a missing key is the empty slice
  unfoldable pub members_of : Text → Pools → List Member
  members_of chain [] = []
  members_of chain ((name, ms) ∷ ps) = if text_eq name chain then ms else members_of chain ps

  unfoldable pub add_member : Member → Pools → Pools
  add_member m [] = (m.backend.chain, m ∷ []) ∷ []
  add_member m ((name, ms) ∷ ps) =
      if text_eq name m.backend.chain
      then (name, ms ++ m ∷ []) ∷ ps
      else (name, ms) ∷ add_member m ps

  -- The loop of NewLoadBalancer over cfg.Backends: no samples, a count of 0, a weight of 1.0.
  unfoldable pub add_backends : List Backend → Pools → Pools
  unfolding add_member
  add_backends [] ps = ps
  add_backends (b ∷ bs) ps = add_backends bs (
      add_member
        (record { backend = record b { latency_history = []; request_count = 0 }; weight = one_f })
        ps)

  -- NewLoadBalancer
  unfoldable pub new_load_balancer : List Backend → Pools
  unfolding add_backends
  new_load_balancer backends = add_backends backends []

  -- GetBackends
  unfoldable pub get_backends : Text → Pools → List Backend
  unfolding members_of
  get_backends chain ps = map (λ (m : Member). m.backend) (members_of chain ps)

  -- GetWeights
  unfoldable pub get_weights : Text → Pools → List F
  unfolding members_of
  get_weights chain ps = map (λ (m : Member). m.weight) (members_of chain ps)
