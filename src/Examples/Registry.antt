-- ===== src/Examples/Registry.antt =====
-- The laws of internal/app/controlplane/registry at two clients of one server.
use mcpv.Base.{
  pos, ◌≡◌, refl, ◌&&◌, true, false, none, [], ◌∷◌, String, List, has, lookup, ◌==◌, occurs,
  AtMostOnce, arith, insert, sort_strings, add_once,
}
use mcpv.Domain.Spec.{ServerSpec, stateless, stdio, on_demand}
use mcpv.Registry.Visibility.{Specs, visible_spec_keys}
use mcpv.Registry.Clients.{
  ClientRegistry, new_client_registry, register, register_found, changed, apply_catalog_update,
  is_internal,
}
use mcpv.Registry.Counts.{clients_seeing}
use mcpv.Registry.Invariant.{RegistryInv, new-RegistryInv}
use mcpv.Registry.Activation.{specs_to_start}
use mcpv.Registry.Updates.{Changes, empty, then_change, registers, Changes-RegistryInv}
use mcpv.Registry.Starts.{register-starts, shared_key_unstarted}

abbrev notes : ServerSpec
notes = record {
  name = "notes";
  transport = stdio;
  cmd = none;
  env = none;
  cwd = "";
  tags = none;
  idle_seconds = 0;
  max_concurrent = 2;
  strategy = stateless;
  session_ttl_seconds = pos 0;
  disabled = false;
  min_ready = 0;
  activation_mode = on_demand;
  drain_timeout_seconds = pos 0;
  protocol_version = "";
  expose_tools = none;
  http = none;
}

abbrev catalog : Specs
catalog = ("notes", notes) ∷ []

abbrev server_keys : List (String × String)
server_keys = ("notes", "k") ∷ []

abbrev enrol : String → Specs → List (String × String) → ClientRegistry → ClientRegistry
enrol client specs servers r =
    (register 5 client 7 [] "" (visible_spec_keys specs servers [] "").0 r).1

abbrev two_clients : Specs → List (String × String) → ClientRegistry
two_clients specs servers = enrol "b" specs servers (enrol "a" specs servers new_client_registry)

two_clients-Changes :
    (specs : Specs) (servers : List (String × String)) → Changes (two_clients specs servers)
two_clients-Changes specs servers =
    then_change (then_change empty (registers 5 "a" 7 [] "" specs servers))
      (registers 5 "b" 7 [] "" specs servers)

Changes-RegistryInv_example : RegistryInv (two_clients catalog server_keys)
Changes-RegistryInv_example =
    Changes-RegistryInv (two_clients catalog server_keys) (two_clients-Changes catalog server_keys)

one_key : AtMostOnce ("k" ∷ [])
unfolding AtMostOnce occurs
one_key k = ground arith

register-starts_example :
    ((register_found 5 "a" 7 [] "" ("k" ∷ []) none new_client_registry).0
      ≡ changed ("k" ∷ []) [] false)
    × (has "k" (
          specs_to_start
            (register_found 5 "a" 7 [] "" ("k" ∷ []) none new_client_registry).1.spec_counts
            ("k" ∷ []))
        ≡ (has "k" ("k" ∷ []) && clients_seeing "k" new_client_registry.active_clients == 0))
unfolding new_client_registry lookup is_internal
register-starts_example =
    register-starts 5 "a" 7 [] "" ("k" ∷ []) new_client_registry "k" new-RegistryInv one_key refl
      refl

abbrev unseen : ClientRegistry
unseen = two_clients [] []

none_sees : clients_seeing "k" unseen.active_clients ≡ 0
unfolding clients_seeing register register_found visible_spec_keys new_client_registry lookup insert
    occurs
none_sees = ground arith

shared_key_unstarted_example :
    (has "k" (apply_catalog_update catalog server_keys unseen).0.0 ≡ true)
    × (has "k" (
          specs_to_start
            (apply_catalog_update catalog server_keys unseen).2.spec_counts
            (apply_catalog_update catalog server_keys unseen).0.0)
        ≡ false)
unfolding clients_seeing register register_found visible_spec_keys new_client_registry lookup insert
    apply_catalog_update occurs sort_strings add_once
shared_key_unstarted_example =
    shared_key_unstarted catalog server_keys unseen "k"
      (Changes-RegistryInv unseen (two_clients-Changes [] [])) none_sees (omega arith)
