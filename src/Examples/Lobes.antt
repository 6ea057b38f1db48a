-- ===== src/Examples/Lobes.antt =====
-- Runs of crates/core/src/lobe.rs, of the registry and of the node's lobes.
use n3ur0n.Prelude.{In, sort, codes, ok, ◌≡◌, refl, ◌↔◌, inl, inr, none, [], ◌∷◌}
use n3ur0n.Examples.World.{alice_keys, registry, config, alice}
use n3ur0n.Lobe.{validate_lobe_id, contains, unclaimable_lobes}
use n3ur0n.Lobe.Grammar.{IsLobeId, validate_lobe_id-ok_iff}
use n3ur0n.Node.{new_node, rename, set_lobes}
use n3ur0n.Node.Membership.{IsMember, node-IsMember}
use n3ur0n.Registry.{enforce_instance_lobes}

validate_lobe_id-ok_iff_example :
    (validate_lobe_id "meteo.fr" ≡ ok tt) ↔ IsLobeId (codes "meteo.fr")
validate_lobe_id-ok_iff_example = validate_lobe_id-ok_iff "meteo.fr"

weather_reported :
    In ("weather", "elsewhere" ∷ []) (enforce_instance_lobes registry ("meteo" ∷ [])).1
unfolding enforce_instance_lobes unclaimable_lobes contains sort
weather_reported = inr (inl refl)

node-IsMember_example :
    IsMember (new_node alice_keys registry config [] [] [] [])
    × IsMember (set_lobes alice [])
    × (IsMember alice → IsMember (rename alice none))
node-IsMember_example = node-IsMember alice_keys registry config alice [] none
