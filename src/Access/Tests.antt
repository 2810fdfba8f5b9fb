-- ===== src/Access/Tests.antt =====
-- A key of a cloud project, and three requests to a limit of two.
use vaultkey.Prelude.{◌≡◌, true, false, some, [], ◌∷◌, codes, arith}
use vaultkey.Prelude.Int.{pos}
use vaultkey.Access.{Request, key_of}
use vaultkey.Access.Window.{replies, replies-expected}

-- The third request is refused, the fourth comes after a second.
replies-expected_example :
    (replies (pos 2) (2000000000 ∷ 3000000 ∷ 2000000 ∷ 1000000 ∷ [])).0
    ≡ true ∷ false ∷ true ∷ true ∷ []
replies-expected_example =
    replies-expected (pos 2) 3000000000 (2000000000 ∷ 3000000 ∷ 2000000 ∷ 1000000 ∷ [])
      (omega arith)

abbrev live_request : Request
live_request = record {
  api_key = codes "vk_live_1";
  api_secret = codes "s";
  lookup = key_of (record {
    secret_hash = codes "s";
    project = record { rate_limit_rps = pos 10; cloud_managed = true; org = some 7 };
  });
  redis_down = false;
  now = 1000000;
}
