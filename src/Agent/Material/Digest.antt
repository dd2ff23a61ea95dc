-- ===== src/Agent/Material/Digest.antt =====
-- What `_material_preview` of core/src/octoforge_core/agent/runner.py shows of a collection.
use mathlib.Core.Option.{some_inj}
use octo_forge.Base.{
  ◌≤◌, String, some, List, [], ◌∷◌, length, length-take, map, select_where, str_length, ◌≡◌, subst,
  arith, ◌&&◌,
}
use octo_forge.Domain.{ChatMessage}
use octo_forge.Agent.Preview.{bounded_preview-length}
use octo_forge.Agent.Material.{
  material_pieces, preview_of, material_preview, material_digest_chars, is_in, is_material,
}

preview_of-length :
    (pieces : List String) (text : String)
    → length pieces ≤ 20
    → preview_of pieces ≡ some text
    → str_length text ≤ 4019
unfolding preview_of
preview_of-length [] text few h = absurd (ground (arith, h))
preview_of-length (piece ∷ pieces) text few h =
    subst (λ t. str_length t ≤ 4019) (some_inj.0 h)
      (omega (
        arith,
        (bounded_preview-length piece pieces material_digest_chars (omega (arith, few))).0,
        few,
      ))

-- Whatever was forwarded, and however much of it, what the router is shown of a collection has at most
-- 4,019 characters: its 20 oldest pieces within the budget of 4,000, and a newline between two of them.
pub material_preview-length :
    (narrative : List ChatMessage) (id text : String)
    → material_preview narrative id ≡ some text
    → str_length text ≤ 4019
unfolding material_preview material_pieces
material_preview-length narrative id text h =
    preview_of-length (material_pieces narrative id) text
      (length-take 20
        (map (λ m. m.content) (select_where (λ m. is_in id m && is_material m.kind) narrative)))
      h
