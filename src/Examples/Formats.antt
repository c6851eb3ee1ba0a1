-- ===== src/Examples/Formats.antt =====
-- The package formats at concrete inputs.
use artifact_depot.Base.{◌≡◌, ◌↔◌, false, [], ◌∷◌}
use artifact_depot.Base.Bytes.{Bytes, contains_byte}
use artifact_depot.Format.Golang.{
  bang, encode_module_path, decode_module_path, decode_module_path-encode_module_path,
}

-- "Go/X!"
abbrev odd_path : Bytes
odd_path = 71 ∷ 111 ∷ 47 ∷ 88 ∷ 33 ∷ []

decode_module_path-encode_module_path_example :
    (decode_module_path (encode_module_path odd_path) ≡ odd_path)
    ↔ (contains_byte bang odd_path ≡ false)
decode_module_path-encode_module_path_example = decode_module_path-encode_module_path odd_path
