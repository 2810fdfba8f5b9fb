-- ===== src/Submit/Samples.antt =====
-- Values for tests: a signer that refuses, a world without jobs, a call in which all is well.
use vaultkey.Prelude.{false, some, [], ◌∷◌, codes}
use vaultkey.Prelude.Int.{pos}
use vaultkey.Relayer.Samples.{user_wallet}
use vaultkey.Queue.Redis.{Lists}
use vaultkey.Queue.Recovery.{no_faults}
use vaultkey.Worker.Tables.{World, Signer, refused}
use vaultkey.Submit.{Visit}

abbrev pub no_signer : Signer
no_signer = record {
  Env = Unit {0};
  wallets = λ e. user_wallet ∷ [];
  sign = λ job wallet e. (refused (codes "no key"), e);
}

abbrev pub empty_world : World Lists (Unit {0})
empty_world = record {
  jobs = [];
  projects = [];
  cost_of = λ op. some (pos 1);
  queue = record { jobs = []; processing = []; dlq = [] };
  usage = [];
  audit = [];
  sent = [];
  env = tt;
}

abbrev pub visit : Visit
visit = record { wallet_fails = false; insert_fails = false; id = 1; faults = no_faults }
