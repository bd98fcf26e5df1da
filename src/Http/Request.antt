-- ===== src/Http/Request.antt =====
-- src/http/request_processor.c: the callbacks of the HTTP parser for one connection.
-- The file system, the Lua scripts and fresh memory are parameters. `none` is an access outside a buffer,
-- through a NULL path, or to the closed FILE of the client.
pub mod Chunks
pub mod Postfix
pub mod Served
pub mod Scripted
pub mod Again
mod Tests
use blocks.Prelude.{
  ℕ, zero, suc, ◌+◌, ◌-◌, Bool, true, false, not, List, [], ◌∷◌, ◌++◌, Option, none, some, ltb, leb,
  ◌==◌, if◌then◌else◌, ◌>>=◌, ◌&&◌, length, get_elem?, set,
}
use blocks.Http.Buffer.{codes, write, strncpy}
use blocks.Http.FullPath.{get_full_path}
use blocks.Http.LuaStates.{LuaService, get_script, get_lua_state, return_lua_state}

-- What `realloc` returns: the old bytes as far as they fit, and then whatever fresh memory holds.
unfoldable pub realloc : (ℕ → ℕ) → List ℕ → ℕ → List ℕ
realloc junk old zero = []
realloc junk [] (suc n) = junk n ∷ realloc junk [] n
realloc junk (b ∷ old) (suc n) = b ∷ realloc junk old n

-- The macro `save_data`, on the buffer (empty for NULL) and its size without the closing zero.
unfoldable pub save_data : (ℕ → ℕ) → List ℕ → ℕ → List ℕ → ℕ → Option (List ℕ × ℕ)
save_data junk old data_size new_data new_data_size = do
  str ← write (realloc junk old (new_data_size + data_size + 1)) (new_data_size + data_size) 0
  str ← strncpy str data_size new_data new_data_size
  some (str, new_data_size + data_size)

-- A C string: the bytes before the first zero, of which there must be one.
unfoldable pub c_string : List ℕ → Option (List ℕ)
c_string [] = none
c_string (c ∷ cs) =
    let rest = c_string cs in if c == 0 then some [] else (do s ← rest; some (c ∷ s))

-- mimetype_t
pub record Mimetype : Type 0 where
  pub postfix : List ℕ
  pub postfix_size : ℕ
  pub mimetype : List ℕ

-- Lower case, as `strncasecmp` compares in the C locale.
unfoldable pub to_lower : ℕ → ℕ
to_lower c = if leb b'A' c && leb c b'Z' then c + 32 else c

-- `strncasecmp(a, b, n) == 0`
unfoldable pub strncasecmp : List ℕ → List ℕ → ℕ → Bool
strncasecmp a b zero = true
strncasecmp [] [] (suc n) = true
strncasecmp [] (d ∷ b) (suc n) = false
strncasecmp (c ∷ a) [] (suc n) = false
strncasecmp (c ∷ a) (d ∷ b) (suc n) = (to_lower c == to_lower d) && strncasecmp a b n

-- What stands behind the last dot: `rindex(path, '.') + 1`, of a first byte and of what it finds later.
unfoldable pub later_dot : ℕ → List ℕ → Option (List ℕ) → Option (List ℕ)
later_dot c cs (some postfix) = some postfix
later_dot c cs none = if c == b'.' then some cs else none

unfoldable pub after_dot : List ℕ → Option (List ℕ)
after_dot [] = none
after_dot (c ∷ cs) = later_dot c cs (after_dot cs)

-- The loop of `get_mimetype` over the table.
unfoldable pub find_mimetype : List Mimetype → List ℕ → List ℕ → List ℕ
find_mimetype [] postfix default = default
find_mimetype (t ∷ types) postfix default =
    let rest = find_mimetype types postfix default in
    if strncasecmp t.postfix postfix t.postfix_size then t.mimetype else rest

unfoldable pub type_of_postfix : Option (List ℕ) → List Mimetype → List ℕ → List ℕ
type_of_postfix none types default = default
type_of_postfix (some postfix) types default = find_mimetype types postfix default

unfoldable pub get_mimetype : List ℕ → List Mimetype → List ℕ → List ℕ
get_mimetype path types default = type_of_postfix (after_dot path) types default

-- The methods that `http_lua_eval` tells apart, and their names.
pub data Method : Type 0 where
  http_get http_post http_put http_delete http_other : Method

abbrev pub method_name : Method → List ℕ
method_name http_get = codes "GET"
method_name http_post = codes "POST"
method_name http_put = codes "PUT"
method_name http_delete = codes "DELETE"
method_name http_other = codes "UNKNOWN"

-- What follows a header: the bytes of a file, an error page, or what the function `dispatch` of a
-- script writes, which is called with a path, a query (`none` for nil) and a method.
pub data Body : Type 0 where
  file : List ℕ → Body
  error_404 : Body
  dispatch : List ℕ → List ℕ → Option (List ℕ) → List ℕ → Body

pub record Response : Type 0 where
  pub status : ℕ
  pub mimetype : List ℕ
  pub body : Body

-- httpd_conf_t without its scripts, and what the server finds on the disk: whether a name is that of a
-- regular file, and whether `fopen` opens it.
pub record Conf : Type 0 where
  pub mimetypes : List Mimetype
  pub default_mimetype : List ℕ
  pub is_regular : List ℕ → Bool
  pub is_readable : List ℕ → Bool

-- struct http_conn_info; an empty buffer is NULL. `responses` is what the client has been sent.
pub record ConnInfo : Type 0 where
  pub path : List ℕ
  pub path_size : ℕ
  pub query : List ℕ
  pub query_size : ℕ
  pub client_open : Bool
  pub type : ℕ
  pub responses : List Response

unfoldable pub on_path : (ℕ → ℕ) → List ℕ → ConnInfo → Option ConnInfo
on_path junk chunk c = do
  (path, path_size) ← save_data junk c.path c.path_size chunk (length chunk)
  some (record c { path = path; path_size = path_size })

unfoldable pub on_query : (ℕ → ℕ) → List ℕ → ConnInfo → Option ConnInfo
on_query junk chunk c = do
  (query, query_size) ← save_data junk c.query c.query_size chunk (length chunk)
  some (record c { query = query; query_size = query_size })

-- `send_header` and what is printed behind it.
unfoldable pub respond : Response → ConnInfo → Option ConnInfo
respond r c = if c.client_open then some (record c { responses = c.responses ++ r ∷ [] }) else none

unfoldable pub fclose : ConnInfo → Option ConnInfo
fclose c = if c.client_open then some (record c { client_open = false }) else none

-- `http_lua_eval` for the script at place `i`; `fresh` is what `luaL_newstate` returns, if it is called.
unfoldable pub http_lua_eval :
    ℕ → Method → ℕ → ConnInfo → List LuaService → Option (ConnInfo × List LuaService)
http_lua_eval fresh method i c states = do
  state ← get_elem? states i
  path ← c_string c.path
  c ←
      respond
        (record {
          status = 200;
          mimetype = state.mimetype;
          body = dispatch state.filename path (c_string c.query) (method_name method);
        })
        c
  (l, taken) ← get_lua_state state fresh
  c ← fclose c
  (_, given) ← return_lua_state taken l
  some (c, set states i given)

-- The buffer of `http_send_file`: `path_size + sizeof("./html/") + sizeof("index.html") + 1` bytes.
unfoldable pub file_buffer : (ℕ → ℕ) → ℕ → List ℕ
file_buffer junk path_size = realloc junk [] (path_size + 8 + 11 + 1)

-- The name that `get_full_path` leaves in the buffer.
unfoldable pub file_name : (ℕ → ℕ) → List ℕ → ℕ → Option (List ℕ)
file_name junk path path_size = do
  buffer ←
      get_full_path (file_buffer junk path_size) (codes "./html/") 7 (codes "index.html") 10 path
        path_size
  c_string buffer

unfoldable pub file_response : Conf → List ℕ → Response
file_response conf name =
    if conf.is_regular name
    then record {
      status = 200;
      mimetype = get_mimetype name conf.mimetypes conf.default_mimetype;
      body = file name;
    }
    else record { status = 404; mimetype = codes "text/html"; body = error_404 }

-- `fopen` of a regular file and the calls with its result, which is not compared with NULL; another name
-- is not opened.
unfoldable pub send_opened : Conf → List ℕ → ConnInfo → Option ConnInfo
send_opened conf name c =
    if conf.is_regular name then (if conf.is_readable name then some c else none) else some c

unfoldable pub http_send_file : (ℕ → ℕ) → Conf → ConnInfo → Option ConnInfo
http_send_file junk conf c = do
  path ← c_string c.path
  name ← file_name junk path c.path_size
  c ← respond (file_response conf name) c
  send_opened conf name c

-- The two branches of `start_processing`, on the result of `get_script`.
unfoldable pub process_by :
    Option ℕ
    → (ℕ → ℕ)
    → ℕ
    → Conf
    → Method
    → ConnInfo
    → List LuaService
    → Option (ConnInfo × List LuaService)
process_by (some i) junk fresh conf method c states =
    http_lua_eval fresh method i (record c { type = b'L' }) states
process_by none junk fresh conf method c states = do
  c ← http_send_file junk conf (record c { type = b'S' })
  some (c, states)

unfoldable pub start_processing :
    (ℕ → ℕ) → ℕ → Conf → Method → ConnInfo → List LuaService → Option (ConnInfo × List LuaService)
start_processing junk fresh conf method c states = do
  path ← c_string c.path
  process_by (get_script states path) junk fresh conf method c states

unfoldable pub message_complete : ConnInfo → Option ConnInfo
message_complete c = if c.type == b'S' then fclose c else some c

-- `request_processor_reset` for a new client; `type` keeps what it was.
unfoldable pub request_processor_reset : ConnInfo → ConnInfo
request_processor_reset c = record {
  path = [];
  path_size = 0;
  query = [];
  query_size = 0;
  client_open = true;
  type = c.type;
  responses = [];
}

unfoldable pub on_paths : (ℕ → ℕ) → List (List ℕ) → ConnInfo → Option ConnInfo
on_paths junk [] c = some c
on_paths junk (chunk ∷ chunks) c = do c ← on_path junk chunk c; on_paths junk chunks c

unfoldable pub on_queries : (ℕ → ℕ) → List (List ℕ) → ConnInfo → Option ConnInfo
on_queries junk [] c = some c
on_queries junk (chunk ∷ chunks) c = do c ← on_query junk chunk c; on_queries junk chunks c

-- The callbacks of one request in the order in which the parser makes them, with the path and the query
-- in any chunks; `on_body` does nothing.
unfoldable pub serve :
    (ℕ → ℕ)
    → ℕ
    → Conf
    → Method
    → List (List ℕ)
    → List (List ℕ)
    → ConnInfo
    → List LuaService
    → Option (ConnInfo × List LuaService)
serve junk fresh conf method paths queries c states = do
  c ← on_paths junk paths c
  c ← on_queries junk queries c
  (c, states) ← start_processing junk fresh conf method c states
  c ← message_complete c
  some (c, states)
