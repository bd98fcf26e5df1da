-- ===== src/Blocks/LuaState/Written.antt =====
-- Writes to the tables of Lua states and userdata, and the commands that make one of each.
use blocks.Prelude.{◌≡◌, ◌∙◌, ◌≢◌, [], Option, none, some, ne→==}
use blocks.Blocks.Store.{Ptr, null, Mailbox, mbox_alive, Store, update}
use blocks.Blocks.Mailbox
use blocks.Blocks.Mailbox.Chain.{update_self, update_other}
use blocks.Http.Buffer.{codes}
use blocks.Blocks.Threads.{ThreadPool, l_blocks_init}
use blocks.Blocks.LuaState.{
  RegistryKey, mailbox_key, parent_mailbox_key, LuaState, Userdata, System, load_state, load_ref,
  set_key, register, mailbox_init, mailbox_get, mailbox_get_parent,
}
use blocks.Blocks.LuaState.Spawn.{
  blocks_functions, mailbox_ref_type_name, message_ref_type_name, mailbox_ref_fields,
  message_ref_fields, init_pool, open_metatable, set_field, luaopen_blocks,
}

abbrev pub States : Type 0
States = Ptr → Option LuaState

abbrev pub Refs : Type 0
Refs = Ptr → Option Userdata

abbrev pub sys : Store → States → Refs → ThreadPool → System
sys store states refs pool = record {
  store = store;
  states = states;
  refs = refs;
  pool = some pool;
}

-- The table `g` has `a` at `p`, and is `f` elsewhere.
pub record Put {ℓ} {A : Type ℓ} (f g : Ptr → Option A) (p : Ptr) (a : A) : Type ℓ where
  pub at : g p ≡ some a
  pub others : (q : Ptr) → q ≢ p → g q ≡ f q

pub update-Put {ℓ} :
    {A : Type ℓ} (f : Ptr → Option A) (p : Ptr) (a : A) → Put f (update f p (some a)) p a
update-Put f p a = record {
  at = update_self f p (some a);
  others = λ q ne. update_other f p q (some a) ne;
}

pub Put-trans {ℓ} :
    {A : Type ℓ} {f g h : Ptr → Option A} {p : Ptr} {a b : A}
    → Put f g p a
    → Put g h p b
    → Put f h p b
Put-trans x y = record { at = y.at; others = λ q ne. y.others q ne ∙ x.others q ne }

pub load_state-some :
    (s : System) (l : Ptr) (st : LuaState)
    → l ≢ null
    → s.states l ≡ some st
    → load_state l s ≡ some (st, s)
unfolding load_state
load_state-some s l st ne at = rw (at, ne→== l null ne)

pub load_ref-some :
    (s : System) (p : Ptr) (u : Userdata)
    → p ≢ null
    → s.refs p ≡ some u
    → load_ref p s ≡ some (u, s)
unfolding load_ref
load_ref-some s p u ne at = rw (at, ne→== p null ne)

-- What a userdata is that has just been given its pointer.
abbrev pub ref_to : Ptr → Userdata
ref_to p = record { holds = p; metatable = none }

abbrev pub registered : RegistryKey → Ptr → LuaState → LuaState
registered key ref st = record st { registry = set_key key ref st.registry }

module _ (l : Ptr) (ne : l ≢ null) (store : Store) (states : States) (refs : Refs)
    (pool : ThreadPool) (st : LuaState) (at : states l ≡ some st) where
  pub register-Put :
      (key : RegistryKey) (ref p : Ptr)
      → (states' : States) × (refs' : Refs) × (register key l ref p (sys store states refs pool)
          ≡ some (tt, sys store states' refs' pool))
        × Put states states' l (registered key ref st)
        × Put refs refs' ref (ref_to p)
  unfolding register
  register-Put key ref p = (
    update states l (some (registered key ref st)),
    update refs ref (some (ref_to p)),
    rw (load_state-some (sys store states refs pool) l st ne at),
    update-Put states l (registered key ref st),
    update-Put refs ref (ref_to p),
  )

  pub mailbox_get-some :
      (ref : Ptr)
      → st.registry mailbox_key ≡ some ref
      → mailbox_get l (sys store states refs pool) ≡ some (ref, sys store states refs pool)
  unfolding mailbox_get
  mailbox_get-some ref own = rw (load_state-some (sys store states refs pool) l st ne at, own)

  pub mailbox_get_parent-some :
      (ref : Ptr)
      → st.registry parent_mailbox_key ≡ some ref
      → mailbox_get_parent l (sys store states refs pool) ≡ some (ref, sys store states refs pool)
  unfolding mailbox_get_parent
  mailbox_get_parent-some ref own =
      rw (load_state-some (sys store states refs pool) l st ne at, own)

-- The mailbox that `mailbox_init` makes, and the store behind it.
abbrev pub new_mailbox : Mailbox
new_mailbox = record {
  head = null;
  end = null;
  count = 0;
  state = mbox_alive;
  task = null;
  last_message = null;
}

abbrev pub with_mailbox : Store → Ptr → Mailbox → Store
with_mailbox store p b = record store { mailboxes = update store.mailboxes p (some b) }

-- A state in which the library is open, before the mailbox is made and behind that.
abbrev pub with_blocks : LuaState → LuaState
with_blocks st = record st { globals = set_field (codes "blocks") blocks_functions st.globals }

abbrev pub with_types : LuaState → LuaState
with_types st =
    let st = open_metatable mailbox_ref_type_name mailbox_ref_fields st in
    let st = open_metatable message_ref_type_name message_ref_fields st in record st { stack = [] }

abbrev pub opened : Ptr → LuaState → LuaState
opened ref st = registered mailbox_key ref (with_types (with_blocks st))

pub luaopen_blocks-Put :
    (l ref fresh : Ptr) (store : Store) (states : States) (refs : Refs) (pool : ThreadPool)
    (st : LuaState)
    → l ≢ null
    → states l ≡ some st
    → (states' : States) × (refs' : Refs) × (luaopen_blocks l ref fresh (sys store states refs pool)
        ≡ some (tt, sys (with_mailbox store fresh new_mailbox) states' refs' pool))
      × Put states states' l (opened ref st)
      × Put refs refs' ref (ref_to fresh)
unfolding luaopen_blocks mailbox_init init_pool l_blocks_init Mailbox.mailbox_init
luaopen_blocks-Put l ref fresh store states refs pool st ne at =
    let st1 = with_blocks st in
    let st2 = with_types st1 in
    let states1 = update states l (some st1) in
    let states2 = update states1 l (some st2) in
    let put1 = update-Put states l st1 in
    let put2 = Put-trans put1 (update-Put states1 l st2) in
    let store' = with_mailbox store fresh new_mailbox in
    let (states', refs', e, put3, put_ref) =
      register-Put l ne store' states2 refs pool st2 put2.at mailbox_key ref fresh in
    (
      states',
      refs',
      rw (
        load_state-some (sys store states refs pool) l st ne at,
        load_state-some (sys store states1 refs pool) l st1 ne put1.at,
        e,
      ),
      Put-trans put2 put3,
      put_ref,
    )
