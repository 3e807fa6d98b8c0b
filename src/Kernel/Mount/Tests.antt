-- ===== src/Kernel/Mount/Tests.antt =====
-- Mounts under /this and at the root.
use camellia.Base.{true, false, text, List, [], ◌∷◌, none, some, ◌≡◌, refl}
use camellia.Kernel.State.{Mount}
use camellia.Kernel.Mount.{starts_with, covers, resolve}
use camellia.Kernel.Mount.Resolve.{IsFirst, resolve_lem}

abbrev deep : Mount
deep = record { prefix = text "/this"; prefix_owned = true; backend = some 1; refs = 1 }

abbrev root : Mount
root = record { prefix = []; prefix_owned = false; backend = some 2; refs = 1 }

abbrev chain : List Mount
chain = deep ∷ root ∷ []

resolves :
    (resolve chain (text "/this/file") ≡ some deep)
    × (resolve chain (text "/this") ≡ some deep)
    × (resolve chain (text "/thisasdf") ≡ some root)
    × (resolve (deep ∷ []) (text "/thisasdf") ≡ none)
unfolding resolve covers starts_with
resolves = (refl, refl, refl, refl)

resolve_lem_example : IsFirst chain (text "/thisasdf") root
unfolding resolve covers starts_with
resolve_lem_example = resolve_lem chain (text "/thisasdf")
