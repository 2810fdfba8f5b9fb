-- ===== src/Worker/Samples.antt =====
-- Values for tests: a queue's codec, a signed job, a signer that refuses, a call in which all is well.
use vaultkey.Prelude.{refl, false, none, some, [], ◌∷◌, codes}
use vaultkey.Queue.Redis.{Job, Codec}
use vaultkey.Queue.Recovery.{no_faults}
use vaultkey.Worker.Jobs.{SigningJob, completed, webhook_pending}
use vaultkey.Worker.Tables.{Round, Signer, refused}

abbrev pub tagged : Codec
tagged = record {
  encode = λ j. j.id ∷ j.project ∷ j.wallet ∷ j.operation;
  decode = λ e. elim e [
    | [] ↦ none
    | a ∷ t ↦ elim t [
      | [] ↦ none
      | b ∷ u ↦ elim u [
        | [] ↦ none
        | c ∷ op ↦ some (record { id = a; project = b; wallet = c; operation = op })
      ]
    ]
  ];
  dead_letter = λ j reason t. t ∷ reason;
  decode-encode = λ j. refl;
}

abbrev pub signed_job : SigningJob
signed_job = record {
  id = 1;
  project = 2;
  wallet = 3;
  idempotency_key = none;
  operation = codes "sign_msg_evm";
  payload = [];
  status = completed;
  result = some (codes "0x01");
  error = none;
  attempts = 1;
  gasless = false;
  webhook_status = webhook_pending;
}

abbrev pub envelope : Job
envelope = record { id = 1; project = 2; wallet = 3; operation = codes "sign_msg_evm" }

abbrev pub refuses : Signer
refuses = record {
  Env = Unit {0};
  wallets = λ e. [];
  sign = λ job wallet e. (refused (codes "no key"), e);
}

abbrev pub quiet : Round
quiet = record {
  rejects = λ q. false;
  faults = no_faults;
  now = 100;
  endpoint = record { answer = λ i. none; cancelled = λ i. false };
  hex_mac = λ body secret. [];
  encode_payload = λ p. p.error;
}
