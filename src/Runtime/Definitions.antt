-- ===== src/Runtime/Definitions.antt =====
-- runtime/src/main.rs: the definitions of all configured tags, from which `main` builds the registry.
use opcua_plc_bridge.Base.{List, [], ◌∷◌, ◌++◌, Str, Outcome, ok, ◌>>=◌}
use opcua_plc_bridge.Core.TagDefinition.{TagDefinition}
use opcua_plc_bridge.Runtime.Config.{TagConfig, PlcConfig}
use opcua_plc_bridge.Runtime.Tags.{TagError, tagconfig_to_definition}

-- The inner loop, over the tags of a PLC.
unfoldable pub plc_definitions : Str → List TagConfig → Outcome TagError (List TagDefinition)
plc_definitions plc_name [] = ok []
plc_definitions plc_name (t ∷ ts) =
    let rest = plc_definitions plc_name ts in
    tagconfig_to_definition t plc_name >>= λ def. rest >>= λ defs. ok (def ∷ defs)

unfoldable pub all_definitions : List PlcConfig → Outcome TagError (List TagDefinition)
unfolding plc_definitions
all_definitions [] = ok []
all_definitions (plc ∷ plcs) =
    let rest = all_definitions plcs in
    plc_definitions plc.name plc.tags >>= λ defs. rest >>= λ others. ok (defs ++ others)
