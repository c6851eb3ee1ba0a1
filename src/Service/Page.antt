-- ===== src/Service/Page.antt =====
-- `paginate_results` of core/src/service/pagination.rs, with the records of a page. Base64 is the
-- parameter `encode`.
use artifact_depot.Base.{
  ℕ, zero, suc, ◌-◌, List, [], ◌∷◌, Option, some, none, ltb, if◌then◌else◌, take, length,
}
use artifact_depot.Base.Bytes.{Bytes}

pub record Pagination : Type 0 where
  pub cursor : Option Bytes
  pub offset : ℕ
  pub limit : ℕ

pub record PaginatedResult (T : Type 0) : Type 0 where
  pub items : List (Bytes × T)
  pub next_cursor : Option Bytes

abbrev pub key_at : {T : Type 0} → List (Bytes × T) → ℕ → Option Bytes
key_at [] i = none
key_at ((k, v) ∷ r) zero = some k
key_at ((k, v) ∷ r) (suc i) = key_at r i

abbrev pub encoded : (Bytes → Bytes) → Option Bytes → Option Bytes
encoded encode none = none
encoded encode (some k) = some (encode k)

unfoldable pub paginate_results :
    {T : Type 0} → (Bytes → Bytes) → List (Bytes × T) → ℕ → PaginatedResult T
paginate_results encode items limit = record {
  items = take limit items;
  next_cursor =
      if ltb limit (length items) then encoded encode (key_at items (limit - 1)) else none;
}
