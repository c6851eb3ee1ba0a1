-- ===== src/Kv/Codec.antt =====
-- Serialization of records (`rmp_serde`, as core/src/service/typed.rs calls it): a parameter, with
-- the round trip that the services rely on.
use artifact_depot.Base.{◌≡◌}
use artifact_depot.Service.Error.{Result, ok}

pub record Codec (A V : Type 0) : Type 0 where
  pub to_vec : A → V
  pub from_slice : V → Result A

pub record CodecLaws {A V : Type 0} (c : Codec A V) : Type 0 where
  pub round_trip : (a : A) → c.from_slice (c.to_vec a) ≡ ok a

-- Records that are stored as they are.
abbrev pub plain : (A : Type 0) → Codec A A
plain A = record { to_vec = λ a. a; from_slice = λ a. ok a }
