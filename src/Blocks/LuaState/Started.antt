-- ===== src/Blocks/LuaState/Started.antt =====
-- blocks.c and process.c: from the call of `spawn` to the end of the new process's first run.
use blocks.Prelude.{ℕ, ◌≡◌, ap, ◌∙◌, List, ◌∷◌, some}
use blocks.Blocks.Store.{Ptr, Store}
use blocks.Blocks.Copy.{Value, function, load_string, LuaApi, copy_stack}
use blocks.Blocks.Copy.Intact.{AllPlain, copy_stack-AllPlain}
use blocks.Blocks.Threads.{ThreadPool}
use blocks.Util.LuaEval.{ok}
use blocks.Blocks.LuaState.{LuaState, Userdata, System}
use blocks.Blocks.LuaState.Spawn.{Fresh, l_spawn}
use blocks.Blocks.LuaState.Written.{States, Refs, sys}
use blocks.Blocks.LuaState.Spawned.{Runs, IsFresh}
use blocks.Blocks.LuaState.Family.{Types, IsApart, l_spawn-Related}
use blocks.Blocks.LuaState.FirstRun.{Lua, left_by, first_run, first_run-left_by}

-- A call of `spawn` with a function and arguments that are nil, booleans, numbers, strings, light userdata, or
-- tables of these as `copy_stack-AllPlain` has them, in a Lua state in which the library is open, returns; and
-- the first run of the new process, on the stack that its Lua state has then, evaluates the function with these
-- arguments. It is given that `luaL_loadbuffer` makes a function of the dump.
pub l_spawn-first_run :
    (api : LuaApi) (lua : Lua) (fresh : Fresh) (ref l own : Ptr) (store : Store) (states : States)
    (refs : Refs) (pool : ThreadPool) (st : LuaState) (user : Userdata) (dump code : List ℕ)
    (args : List Value)
    → IsFresh fresh l own
    → IsApart ref own fresh
    → Runs states refs l st own user
    → Types st
    → st.stack ≡ function dump ∷ args
    → AllPlain api args
    → lua.loadbuffer dump ≡ (ok, function code)
    → (u : System) × (child : LuaState) × (l_spawn api fresh ref l (sys store states refs pool)
        ≡ some (some 1, u))
      × (u.states fresh.state ≡ some child)
      × (first_run lua child.stack ≡ left_by (lua.run code args))
l_spawn-first_run api lua fresh ref l own store states refs pool st user dump code args f a r types
      stack plain loads =
    let copies = ap (copy_stack api) stack ∙ copy_stack-AllPlain api dump args plain in
    let (u, e, emptied, related, spawns, box) =
      l_spawn-Related api fresh ref l own store states refs pool st user f a r types
        (load_string dump ∷ args) copies in
    (
      u,
      related.child,
      e,
      related.loaded,
      ap (first_run lua) related.arguments ∙ first_run-left_by lua dump code args loads,
    )
