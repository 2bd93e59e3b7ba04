-- ===== src/Server/Request/Decoded.antt =====
-- The query is decoded before it is split.
use smarty_appserver.Prelude.{Option, ℕ, ◌<◌, ◌≡◌, refl, Bool, true, Text, List, All}
use smarty_appserver.Database.{DbMap}
use smarty_appserver.Http.Decode.{ScansHex, url_encode, url_decode-url_encode}
use smarty_appserver.Parser.{Externals}
use smarty_appserver.World.{World, System}
use smarty_appserver.Server.Request.{import_variables}

module _ {S : Type 0} (x : Externals) (sys : System S) (dbs : DbMap) (protocol : Option Text)
    (scans : ScansHex x.scan_hex) where
  -- Where sscanf reads two hexadecimal digits, a query of bytes gives the same variables whichever of
  -- its bytes the client has escaped, as long as '%' is.
  pub import_variables-url_encode :
      (escaped escaped' : ℕ → Bool) (ii : ℕ) (s : Text) (envp : List Text) (w : World S)
      → escaped 37 ≡ true
      → escaped' 37 ≡ true
      → All (λ c. c < 256) s
      → import_variables x sys dbs protocol ii (url_encode escaped s) envp w
        ≡ import_variables x sys dbs protocol ii (url_encode escaped' s) envp w
  unfolding import_variables
  import_variables-url_encode escaped escaped' ii s envp w p p' bytes =
      let one = url_decode-url_encode x.scan_hex scans escaped p ii s bytes in
      let other = url_decode-url_encode x.scan_hex scans escaped' p' ii s bytes in
      rw (one, other) refl
