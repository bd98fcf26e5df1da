-- ===== src/Blocks/LuaState/Family.antt =====
-- blocks.c: a process and the one that it spawns.
use blocks.Prelude.{ℕ, ◌≡◌, refl, sym, ◌∙◌, ◌≢◌, false, List, [], ◌∷◌, none, some}
use blocks.Blocks.Store.{Ptr, null, Mailbox, task_init, mbox_alive, Store, update}
use blocks.Blocks.Mailbox.Chain.{nil, update_self}
use blocks.Blocks.Mailbox.Queue.{Holds}
use blocks.Blocks.Process.{append_item}
use blocks.Blocks.Process
use blocks.Blocks.Copy.{Value, userdata, LuaApi, same_bytes, copied, raised, copy_stack}
use blocks.Blocks.Threads.{ThreadPool}
use blocks.Http.Buffer.{codes}
use blocks.Blocks.LuaState.{
  mailbox_key, parent_mailbox_key, Slot, c_function, c_message_send, LuaState, Userdata, System,
  set_key, same_registry_key, mailbox_get, mailbox_get_parent,
}
use blocks.Blocks.LuaState.Spawn.{
  Fresh, get_field, set_field, set_fields, newmetatable, open_metatable, mailbox_ref_type_name,
  set_metatable, checkudata, l_spawn,
}
use blocks.Blocks.LuaState.Written.{
  States, Refs, sys, update-Put, load_state-some, load_ref-some, ref_to, mailbox_get-some,
  mailbox_get_parent-some, new_mailbox,
}
use blocks.Blocks.LuaState.Spawned.{
  Runs, IsFresh, with_box, with_child, spawn_store, loaded_child, process_spawn-Spawned,
  process_spawn-raised,
}

-- The metatable of mailboxes is registered in the state.
pub record Types (st : LuaState) : Type 0 where
  pub fields : List (List ℕ × Slot)
  pub at : get_field mailbox_ref_type_name st.metatables ≡ some fields
  pub send : get_field (codes "send") fields ≡ some (c_function c_message_send)

loaded_child-Types : (fresh : Fresh) (values : List Value) → Types (loaded_child fresh values)
unfolding open_metatable newmetatable get_field set_field set_fields same_bytes
loaded_child-Types fresh values = record { fields = _; at = refl; send = refl }

-- The userdata that `l_spawn` returns.
abbrev mailbox_ref : Ptr → Userdata
mailbox_ref p = record { holds = p; metatable = some mailbox_ref_type_name }

checkudata-mailbox_ref :
    (s : System) (p box : Ptr)
    → p ≢ null
    → s.refs p ≡ some (mailbox_ref box)
    → checkudata mailbox_ref_type_name (userdata p) s ≡ some (some p, s)
unfolding checkudata
checkudata-mailbox_ref s p box ne at = rw (load_ref-some s p (mailbox_ref box) ne at)

-- A parent `l` with the mailbox `parent`, and the process that it has spawned.
pub record Related (s : System) (l ref : Ptr) (fresh : Fresh) (parent : Ptr) (values : List Value)
    : Type 0 where
  pub child : LuaState
  pub loaded : s.states fresh.state ≡ some child
  pub arguments : child.stack ≡ values
  pub types : Types child
  pub runs : Runs s.states s.refs fresh.state child fresh.mailbox_ref (ref_to fresh.mailbox)
  pub mailbox : mailbox_get fresh.state s ≡ some (fresh.mailbox_ref, s)
  pub parent_mailbox : mailbox_get_parent fresh.state s ≡ some (fresh.parent_ref, s)
  pub parent_holds : s.refs fresh.parent_ref ≡ some (ref_to parent)
  pub returned : checkudata mailbox_ref_type_name (userdata ref) s ≡ some (some ref, s)
  pub holds : s.refs ref ≡ some (mailbox_ref fresh.mailbox)

set_metatable-mailbox :
    (s : System) (st : LuaState) (p box : Ptr)
    → p ≢ null
    → s.refs p ≡ some (ref_to box)
    → Types st
    → set_metatable mailbox_ref_type_name st p s
      ≡ some (tt, record s { refs = update s.refs p (some (mailbox_ref box)) })
unfolding set_metatable
set_metatable-mailbox s st p box ne at types = rw (load_ref-some s p (ref_to box) ne at, types.at)

loaded_child-keys :
    (fresh : Fresh) (values : List Value)
    → ((loaded_child fresh values).registry mailbox_key ≡ some fresh.mailbox_ref)
      × ((loaded_child fresh values).registry parent_mailbox_key ≡ some fresh.parent_ref)
unfolding set_key same_registry_key
loaded_child-keys fresh values = (refl, refl)

-- The new mailbox is empty and alive.
with_child-Holds :
    (fresh : Fresh) (store : Store)
    → fresh.mailbox ≢ null
    → Holds (with_child fresh store) fresh.mailbox mbox_alive []
with_child-Holds fresh store ne = record {
  mailbox = record new_mailbox { task = fresh.task };
  ne_null = ne;
  at_box = update_self (update store.mailboxes fresh.mailbox (some new_mailbox)) fresh.mailbox _;
  in_state = refl;
  chain = nil;
  end = tt;
  count = refl;
}

-- What `l_spawn` allocates itself is apart from the rest, too.
pub record IsApart (ref own : Ptr) (fresh : Fresh) : Type 0 where
  pub ne_null : ref ≢ null
  pub mailbox_ref : ref ≢ fresh.mailbox_ref
  pub parent_ref : ref ≢ fresh.parent_ref

module _ (api : LuaApi) (fresh : Fresh) (ref l own : Ptr) (store : Store) (states : States)
    (refs : Refs) (pool : ThreadPool) (st : LuaState) (user : Userdata) (f : IsFresh fresh l own)
    (a : IsApart ref own fresh) (r : Runs states refs l st own user) (types : Types st) where
  -- In a Lua state in which the library is open, and with a stack that can be copies_e: `spawn` returns a reference to a
  -- mailbox, which alone is on the stack then; the mailbox is empty and alive, and that of a new task, which is at the end of
  -- the queue; the new task's Lua state has the copy of the stack, the same mailbox as its own and its parent's as its
  -- parent's, and can itself spawn and send.
  pub l_spawn-Related :
      (values : List Value)
      → copy_stack api st.stack ≡ copied values
      → (u : System) × (l_spawn api fresh ref l (sys store states refs pool) ≡ some (some 1, u))
        × (u.states l ≡ some (record st { stack = userdata ref ∷ [] }))
        × Related u l ref fresh user.holds values
        × (Process.process_spawn fresh.task fresh.mailbox store ≡ some (fresh.mailbox, u.store))
        × Holds u.store fresh.mailbox mbox_alive []
  unfolding l_spawn
  l_spawn-Related values copies_e =
      let (mid, states', refs', e, made, spawned) =
        process_spawn-Spawned api fresh l own store states refs pool st user f r values copies_e in
      let store' = with_child fresh store in
      let refs1 = update refs' ref (some (ref_to fresh.mailbox)) in
      let put1 = update-Put refs' ref (ref_to fresh.mailbox) in
      let st' : LuaState = record st { stack = userdata ref ∷ [] } in
      let states1 = update states' l (some st') in
      let put2 = update-Put states' l st' in
      let refs2 = update refs1 ref (some (mailbox_ref fresh.mailbox)) in
      let put3 = update-Put refs1 ref (mailbox_ref fresh.mailbox) in
      let types' : Types (record st { stack = [] }) = record {
        fields = types.fields;
        at = types.at;
        send = types.send;
      } in
      let u = sys store' states1 refs2 pool in
      let at_child = put2.others fresh.state (λ e. f.apart (sym e)) ∙ spawned.child in
      let (own_key, parent_key) = loaded_child-keys fresh values in
      let child = loaded_child fresh values in
      (
        u,
        rw (
          e,
          load_state-some (sys store' states' refs1 pool) l (record st { stack = [] }) r.ne_null
              spawned.emptied,
          set_metatable-mailbox (sys store' states1 refs1 pool) (record st { stack = [] }) ref
              fresh.mailbox a.ne_null put1.at types',
        ),
        put2.at,
        record {
          child = child;
          loaded = at_child;
          arguments = refl;
          types = loaded_child-Types fresh values;
          runs = record {
            ne_null = f.state;
            at = at_child;
            key = own_key;
            own_ne = f.mailbox_ref;
            own_at =
                put3.others fresh.mailbox_ref (λ e. a.mailbox_ref (sym e))
                ∙ put1.others fresh.mailbox_ref (λ e. a.mailbox_ref (sym e))
                ∙ made.box_ref;
          };
          mailbox =
              mailbox_get-some fresh.state f.state store' states1 refs2 pool child at_child
                fresh.mailbox_ref own_key;
          parent_mailbox =
              mailbox_get_parent-some fresh.state f.state store' states1 refs2 pool child at_child
                fresh.parent_ref parent_key;
          parent_holds =
              put3.others fresh.parent_ref (λ e. a.parent_ref (sym e))
              ∙ put1.others fresh.parent_ref (λ e. a.parent_ref (sym e))
              ∙ made.parent_ref;
          returned = checkudata-mailbox_ref u ref fresh.mailbox a.ne_null put3.at;
          holds = put3.at;
        },
        spawn_store fresh store f.mailbox,
        with_child-Holds fresh store f.mailbox,
      )

  -- With a stack that cannot be copies_e `spawn` raises an error; the task, its mailbox and its Lua state stay allocated, but the
  -- task is not in the queue.
  pub l_spawn-leaks :
      copy_stack api st.stack ≡ raised
      → (u : System) × (l_spawn api fresh ref l (sys store states refs pool) ≡ some (none, u))
        × (u.store.tasks fresh.task
            ≡ some (record { mailbox = fresh.mailbox; is_loaded = false; state = task_init }))
        × ((b : Mailbox) × (u.store.mailboxes fresh.mailbox ≡ some b))
        × ((child : LuaState) × (u.states fresh.state ≡ some child))
        × (u.store.task_queue ≡ store.task_queue)
  unfolding l_spawn
  l_spawn-leaks copies_e =
      let (states', refs', e, made) =
        process_spawn-raised api fresh l own store states refs pool st user f r copies_e in
      (
        sys (with_box fresh store) states' refs' pool,
        rw e,
        update_self store.tasks fresh.task _,
        (_, update_self (update store.mailboxes fresh.mailbox (some new_mailbox)) fresh.mailbox _),
        (_, made.child.at),
        refl,
      )
