-- ===== src/Blocks/LuaState/Spawned.antt =====
-- process.c and blocks.c: what a call of `spawn` makes.
use blocks.Prelude.{◌≡◌, refl, sym, ◌∙◌, ◌≢◌, true, false, List, [], ◌++◌, none, some}
use blocks.Blocks.Store.{Ptr, null, Task, task_init, Store, update}
use blocks.Blocks.Mailbox.{mailbox_set_task}
use blocks.Blocks.Mailbox
use blocks.Blocks.Mailbox.Chain.{update_self}
use blocks.Blocks.Mailbox.Queue.{load_mailbox-some}
use blocks.Blocks.Process.{push_task, append_item}
use blocks.Blocks.Process
use blocks.Blocks.Copy.{Value, LuaApi, copied, raised, copy_stack}
use blocks.Blocks.Threads.{ThreadPool}
use blocks.Blocks.LuaState.{
  mailbox_key, parent_mailbox_key, LuaState, Userdata, System, set_key, same_registry_key,
  mailbox_register_parent,
}
use blocks.Blocks.LuaState.Spawn.{Fresh, new_state, make_task, push_copies, process_spawn}
use blocks.Blocks.LuaState.Written.{
  States, Refs, sys, Put, update-Put, Put-trans, load_state-some, load_ref-some, ref_to, registered,
  register-Put, mailbox_get-some, new_mailbox, with_mailbox, opened, luaopen_blocks-Put,
}

-- A Lua state in which the library is open: its registry has a reference to its mailbox.
pub record Runs (states : States) (refs : Refs) (l : Ptr) (st : LuaState) (own : Ptr)
    (user : Userdata) : Type 0 where
  pub ne_null : l ≢ null
  pub at : states l ≡ some st
  pub key : st.registry mailbox_key ≡ some own
  pub own_ne : own ≢ null
  pub own_at : refs own ≡ some user

-- What is allocated for a new process is not NULL, and apart from what its parent has.
pub record IsFresh (fresh : Fresh) (l own : Ptr) : Type 0 where
  pub task : fresh.task ≢ null
  pub state : fresh.state ≢ null
  pub mailbox : fresh.mailbox ≢ null
  pub mailbox_ref : fresh.mailbox_ref ≢ null
  pub parent_ref : fresh.parent_ref ≢ null
  pub apart : l ≢ fresh.state
  pub own_mailbox : own ≢ fresh.mailbox_ref
  pub own_parent : own ≢ fresh.parent_ref
  pub refs : fresh.mailbox_ref ≢ fresh.parent_ref

-- The store behind `process_spawn`.
abbrev pub with_task : Fresh → Store → Store
with_task fresh store =
    let store : Store = record store {
      tasks =
          update store.tasks fresh.task
            (some (record { mailbox = fresh.mailbox; is_loaded = false; state = task_init }));
    } in
    with_mailbox store fresh.mailbox new_mailbox

abbrev pub with_box : Fresh → Store → Store
with_box fresh store =
    with_mailbox (with_task fresh store) fresh.mailbox (record new_mailbox { task = fresh.task })

abbrev pub with_child : Fresh → Store → Store
with_child fresh store = record (with_box fresh store) {
  task_queue = append_item store.task_queue fresh.task;
}

set_task :
    (fresh : Fresh) (store : Store)
    → fresh.mailbox ≢ null
    → mailbox_set_task fresh.mailbox fresh.task (with_task fresh store)
      ≡ some (tt, with_box fresh store)
unfolding mailbox_set_task
set_task fresh store ne = rw (
    load_mailbox-some (with_task fresh store) fresh.mailbox new_mailbox ne
      (update_self store.mailboxes fresh.mailbox (some new_mailbox)))

-- The model of `process_spawn` in the store makes the same.
pub spawn_store :
    (fresh : Fresh) (store : Store)
    → fresh.mailbox ≢ null
    → Process.process_spawn fresh.task fresh.mailbox store
      ≡ some (fresh.mailbox, with_child fresh store)
unfolding Process.process_spawn Mailbox.mailbox_init push_task
spawn_store fresh store ne = rw (set_task fresh store ne)

-- The child's Lua state before and behind the copy of the parent's stack.
abbrev pub child_state : Fresh → LuaState
child_state fresh =
    registered parent_mailbox_key fresh.parent_ref (opened fresh.mailbox_ref new_state)

abbrev pub loaded_child : Fresh → List Value → LuaState
loaded_child fresh values = record (child_state fresh) { stack = values }

opened-key : (ref : Ptr) (st : LuaState) → (opened ref st).registry mailbox_key ≡ some ref
unfolding set_key same_registry_key
opened-key ref st = refl

-- What `process_spawn` makes before it copies the stack.
pub record Made (fresh : Fresh) (states states' : States) (refs refs' : Refs) (parent : Ptr)
    : Type 0 where
  pub child : Put states states' fresh.state (child_state fresh)
  pub box_ref : refs' fresh.mailbox_ref ≡ some (ref_to fresh.mailbox)
  pub parent_ref : refs' fresh.parent_ref ≡ some (ref_to parent)
  pub other_refs : (a : Ptr) → a ≢ fresh.mailbox_ref → a ≢ fresh.parent_ref → refs' a ≡ refs a

module _ (fresh : Fresh) (l own : Ptr) (store : Store) (states : States) (refs : Refs)
    (pool : ThreadPool) (st : LuaState) (user : Userdata) (f : IsFresh fresh l own)
    (r : Runs states refs l st own user) where
  abbrev states1 : States
  states1 = update states fresh.state (some new_state)

  abbrev put1 : Put states states1 fresh.state new_state
  put1 = update-Put states fresh.state new_state

  pub make_task-Made :
      (states' : States) × (refs' : Refs) × (make_task fresh l (sys store states refs pool)
        ≡ some (fresh.mailbox, sys (with_box fresh store) states' refs' pool))
      × Made fresh states states' refs refs' user.holds
  unfolding make_task mailbox_register_parent
  make_task-Made =
      let task : Task = record { mailbox = fresh.mailbox; is_loaded = false; state = task_init } in
      let store1 : Store = record store { tasks = update store.tasks fresh.task (some task) } in
      let (states2, refs2, opens, put2, box_ref) =
        luaopen_blocks-Put fresh.state fresh.mailbox_ref fresh.mailbox store1 states1 refs pool
          new_state f.state put1.at in
      let store2 = with_task fresh store in
      let child = opened fresh.mailbox_ref new_state in
      let own_child =
        mailbox_get-some fresh.state f.state store2 states2 refs2 pool child put2.at
          fresh.mailbox_ref (opened-key fresh.mailbox_ref new_state) in
      let load_own =
        load_ref-some (sys store2 states2 refs2 pool) fresh.mailbox_ref (ref_to fresh.mailbox)
          f.mailbox_ref box_ref.at in
      let store3 = with_box fresh store in
      let put12 = Put-trans put1 put2 in
      let at2 = put12.others l f.apart ∙ r.at in
      let own_parent = mailbox_get-some l r.ne_null store3 states2 refs2 pool st at2 own r.key in
      let load_parent =
        load_ref-some (sys store3 states2 refs2 pool) own user r.own_ne
          (box_ref.others own f.own_mailbox ∙ r.own_at) in
      let (states3, refs3, registers, put3, parent_ref) =
        register-Put fresh.state f.state store3 states2 refs2 pool child put2.at parent_mailbox_key
          fresh.parent_ref user.holds in
      (
        states3,
        refs3,
        rw (
          opens,
          own_child,
          load_own,
          set_task fresh store f.mailbox,
          own_parent,
          load_parent,
          registers,
        ),
        record {
          child = Put-trans put12 put3;
          box_ref = parent_ref.others fresh.mailbox_ref f.refs ∙ box_ref.at;
          parent_ref = parent_ref.at;
          other_refs = λ a ne other. parent_ref.others a other ∙ box_ref.others a ne;
        },
      )

module _ (api : LuaApi) (src dst : Ptr) (s : System) (from to : LuaState) (ns : src ≢ null)
    (nd : dst ≢ null) (es : s.states src ≡ some from) (ed : s.states dst ≡ some to) where
  push_copies-some :
      (values : List Value)
      → copy_stack api from.stack ≡ copied values
      → push_copies api src dst s
        ≡ some (
          true,
          record s {
            states = update s.states dst (some (record to { stack = to.stack ++ values }));
          },
        )
  unfolding push_copies
  push_copies-some values c =
      rw (load_state-some s src from ns es, load_state-some s dst to nd ed, c)

  push_copies-raised :
      copy_stack api from.stack ≡ raised → push_copies api src dst s ≡ some (false, s)
  unfolding push_copies
  push_copies-raised c = rw (load_state-some s src from ns es, load_state-some s dst to nd ed, c)

-- What `process_spawn` leaves of the Lua states.
pub record Spawned (fresh : Fresh) (states states' : States) (l : Ptr) (st : LuaState)
    (values : List Value) : Type 0 where
  pub child : states' fresh.state ≡ some (loaded_child fresh values)
  pub emptied : states' l ≡ some (record st { stack = [] })
  pub others : (a : Ptr) → a ≢ l → a ≢ fresh.state → states' a ≡ states a

module _ (api : LuaApi) (fresh : Fresh) (l own : Ptr) (store : Store) (states : States)
    (refs : Refs) (pool : ThreadPool) (st : LuaState) (user : Userdata) (f : IsFresh fresh l own)
    (r : Runs states refs l st own user) where
  pub process_spawn-Spawned :
      (values : List Value)
      → copy_stack api st.stack ≡ copied values
      → (mid states' : States) × (refs' : Refs) × (process_spawn api fresh l
            (sys store states refs pool)
          ≡ some (some fresh.mailbox, sys (with_child fresh store) states' refs' pool))
        × Made fresh states mid refs refs' user.holds
        × Spawned fresh states states' l st values
  unfolding process_spawn push_task
  process_spawn-Spawned values copies_e =
      let (states3, refs3, e, made) =
        make_task-Made fresh l own store states refs pool st user f r in
      let at3 = made.child.others l f.apart ∙ r.at in
      let s3 = sys (with_box fresh store) states3 refs3 pool in
      let copies =
        push_copies-some api l fresh.state s3 st (child_state fresh) r.ne_null f.state at3
          made.child.at values copies_e in
      let states4 = update states3 fresh.state (some (loaded_child fresh values)) in
      let put4 =
        Put-trans made.child (update-Put states3 fresh.state (loaded_child fresh values)) in
      let at4 = put4.others l f.apart ∙ r.at in
      let put5 = update-Put states4 l (record st { stack = [] }) in
      (
        states3,
        update states4 l (some (record st { stack = [] })),
        refs3,
        rw (
          e,
          copies,
          load_state-some (sys (with_child fresh store) states4 refs3 pool) l st r.ne_null at4,
        ),
        made,
        record {
          child = put5.others fresh.state (λ e. f.apart (sym e)) ∙ put4.at;
          emptied = put5.at;
          others = λ a ne other. put5.others a ne ∙ put4.others a other;
        },
      )

  pub process_spawn-raised :
      copy_stack api st.stack ≡ raised
      → (states' : States) × (refs' : Refs) × (process_spawn api fresh l
            (sys store states refs pool)
          ≡ some (none, sys (with_box fresh store) states' refs' pool))
        × Made fresh states states' refs refs' user.holds
  unfolding process_spawn
  process_spawn-raised copies_e =
      let (states3, refs3, e, made) =
        make_task-Made fresh l own store states refs pool st user f r in
      let at3 = made.child.others l f.apart ∙ r.at in
      let s3 = sys (with_box fresh store) states3 refs3 pool in
      let copies =
        push_copies-raised api l fresh.state s3 st (child_state fresh) r.ne_null f.state at3
          made.child.at copies_e in
      (states3, refs3, rw (e, copies), made)
