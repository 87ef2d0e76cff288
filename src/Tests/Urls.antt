-- ===== src/Tests/Urls.antt =====
-- The URL of a collector at a concrete address.
use tansa.Prelude.{◌≡◌, [], ◌∷◌, arith}
use tansa.Server.{get_response_collector_address}
use tansa.Server.Urls.{read_url, read_url-get_response_collector_address}
use tansa.Tests.{remote}

-- `http://[::123%456]:3`
read_url-get_response_collector_address_example :
    read_url (get_response_collector_address remote 3)
    ≡ record { ip = 0 ∷ 0 ∷ 0 ∷ 0 ∷ 0 ∷ 0 ∷ 0 ∷ 0x123 ∷ []; scope_id = 456; port = 3 }
read_url-get_response_collector_address_example =
    read_url-get_response_collector_address remote 3
      (
        omega arith,
        (
          omega arith,
          (
            omega arith,
            (omega arith, (omega arith, (omega arith, (omega arith, (omega arith, tt))))),
          ),
        ),
      )
      (omega arith) (omega arith)
