-- ===== src/Servers/Requests.antt =====
-- The requests that write servers, of internal/handlers/servers.go, and ImportConfig of
-- internal/handlers/settings.go, as one type.
use syncent.Base.{ℕ, String, Option, List}
use syncent.External.{External}
use syncent.Config.{Config}
use syncent.Http.{Response, Request}
use syncent.Database.{Db}
use syncent.Crypto.Keys.{KeyLib}
use syncent.Servers.{JsonLib, CreateBody, create_server}
use syncent.Servers.Manage.{Binding, DeleteBody, update_server_fields, delete_server}
use syncent.Servers.Connect.{Hosts, manual_key_setup, test_connection}
use syncent.Servers.Inject.{inject_key}
use syncent.Transfer.{ExportLib}
use syncent.Transfer.Import.{ImportBody, import_config}

pub data ServerRequest (Json : Type 0) : Type 0 where
  create : Option CreateBody → ServerRequest Json
  update : String → Option (List (String × Json)) → ServerRequest Json
  delete : String → Option DeleteBody → ServerRequest Json
  inject : String → Option String → ServerRequest Json
  setup test : String → ServerRequest Json
  import_file : Option ImportBody → ServerRequest Json

module _ {Json : Type 0} (x : External) (lib : JsonLib) (bind : Binding Json) (c : Config)
    (keys : KeyLib) (hosts : Hosts) (r : Request) (exports : ExportLib) (nonces : ℕ → List ℕ) where
  unfoldable pub handle : ServerRequest Json → Db → Db × Response
  handle (create body) db = create_server x lib c r keys body db
  handle (update id body) db = update_server_fields bind x lib r id body db
  handle (delete id body) db = delete_server x c r id body db
  handle (inject id body) db =
      let done = inject_key x c keys hosts r id body db in (done.db, done.response)
  handle (setup id) db = manual_key_setup x c keys hosts r id db
  handle (test id) db = test_connection x c keys hosts r id db
  handle (import_file body) db = import_config x exports c keys nonces r body db
