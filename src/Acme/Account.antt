-- ===== src/Acme/Account.antt =====
-- src/acme.rs: where the ACME files are, and `load_or_create_account`. The files are a map from paths
-- to their text; the ACME client and serde are parameters, with the types of its accounts and of
-- their credentials.
use konnector.Prelude.{
  try-eq-ok, ◌≡◌, refl, Option, none, some, arith, if◌then◌else◌, Result, ok, err, ◌>>=◌, ◌>>◌, ◌∙◌,
  sym, map_err, Checked, Text, codes, str_eq, unwrap_or, ap,
}
use konnector.Prelude.StringLaws.{str_eq_refl}
use konnector.Prelude.FilePath.{join_path}
use konnector.Configs.Tls.{TlsProviderConfig}

-- `ssl_dir` is that of src/paths.rs.
unfoldable pub account_dir : Text → TlsProviderConfig → Text
unfolding join_path
account_dir ssl_dir provider = join_path (unwrap_or provider.tls_dir ssl_dir) (codes "acme")

unfoldable pub account_path : Text → TlsProviderConfig → Text
unfolding join_path account_dir
account_path ssl_dir provider = join_path (account_dir ssl_dir provider) (codes "account.json")

unfoldable pub backoff_path : Text → TlsProviderConfig → Text
unfolding join_path account_dir
backoff_path ssl_dir provider = join_path (account_dir ssl_dir provider) (codes "retry_after")

abbrev pub Files : Type 0
Files = Text → Option Text

abbrev pub written : Text → Text → Files → Files
written path text files other = if str_eq path other then some text else files other

-- What the client and the file system answer. Whether a file that is there can be read, and whether
-- the directory and the file can be written, is part of it.
pub record Client (Account Credentials : Type 0) : Type 0 where
  pub staging_url : Text
  pub production_url : Text
  pub create_dir_all : Checked Text
  pub readable : Checked Text
  pub writable : Checked Text
  pub builder : Checked Text
  pub from_str : Text → Result Text Credentials
  pub from_credentials : Credentials → Result Text Account
  pub create : Text → Result Text (Account × Credentials)
  pub to_string_pretty : Credentials → Result Text Text

pub data AccountError : Type 0 where
  no_directory unreadable invalid_credentials no_builder not_restored : Text → AccountError
  not_created not_serialized not_written : Text → AccountError

module _ {Account Credentials : Type 0} (client : Client Account Credentials) where
  unfoldable pub restore : Text → Result AccountError Account
  restore raw =
      map_err unreadable client.readable
      >> (map_err invalid_credentials (client.from_str raw) >>= λ credentials.
          map_err no_builder client.builder
          >> map_err not_restored (client.from_credentials credentials))

  -- What is written to the file of the account, and the account.
  unfoldable pub create_account : TlsProviderConfig → Result AccountError (Text × Account)
  create_account provider =
      let directory = if provider.acme_staging then client.staging_url else client.production_url in
      map_err no_builder client.builder
      >> (map_err not_created (client.create directory) >>= λ created.
          map_err not_serialized (client.to_string_pretty created.1) >>= λ serialized.
          map_err not_written client.writable >> ok (serialized, created.0))

  abbrev stored :
      Text → Files → Result AccountError (Text × Account) → Files × Result AccountError Account
  stored path files (ok (text, account)) = (written path text files, ok account)
  stored path files (err e) = (files, err e)

  -- By whether the directory can be made, and what is in the file.
  unfoldable pub load_from :
      Text
      → TlsProviderConfig
      → Files
      → Checked Text
      → Option Text
      → Files × Result AccountError Account
  unfolding restore create_account
  load_from path provider files (err e) file = (files, err (no_directory e))
  load_from path provider files (ok made) (some raw) = (files, restore raw)
  load_from path provider files (ok made) none = stored path files (create_account provider)

  unfoldable pub load_or_create_account :
      Text → TlsProviderConfig → Files → Files × Result AccountError Account
  unfolding load_from account_path
  load_or_create_account ssl_dir provider files =
      let path = account_path ssl_dir provider in
      load_from path provider files client.create_dir_all (files path)

  stored-writes :
      (path : Text) (files : Files) (created : Result AccountError (Text × Account))
      (account : Account)
      → (stored path files created).1 ≡ ok account
      → (text : Text) × ((stored path files created).0 path ≡ some text)
        × (created ≡ ok (text, account))
  stored-writes path files (err e) account h = cc
  stored-writes path files (ok (text, other)) account h =
      let here = str_eq_refl path in
      (text, ground (arith, here), ap (λ a. ok (text, a)) (by_value h))
    where
      by_value : {a b : Account} → ◌≡◌ {A = Result AccountError Account} (ok a) (ok b) → a ≡ b
      by_value e = cc

  -- An account that was created: by the directory that the staging switch names, with the text of
  -- its credentials in the file.
  record IsCreated (provider : TlsProviderConfig) (text : Text) (account : Account) : Type 0 where
    pub credentials : Credentials
    pub built : client.builder ≡ ok tt
    pub by_directory :
        client.create (if provider.acme_staging then client.staging_url else client.production_url)
        ≡ ok (account, credentials)
    pub serialized : client.to_string_pretty credentials ≡ ok text

  create_account-IsCreated :
      (provider : TlsProviderConfig) (text : Text) (account : Account)
      → create_account provider ≡ ok (text, account)
      → IsCreated provider text account
  unfolding create_account
  create_account-IsCreated provider text account h =
      let directory = if provider.acme_staging then client.staging_url else client.production_url in
      let (_, built, after_build) = try-eq-ok no_builder client.builder _ h in
      let (made, by_directory, after_create) =
        try-eq-ok not_created (client.create directory) _ after_build in
      let (file, pretty, after_pretty) =
        try-eq-ok not_serialized (client.to_string_pretty made.1) _ after_create in
      let (_, _, result) = try-eq-ok not_written client.writable _ after_pretty in
      let same : ◌≡◌ {A = Text × Account} (file, made.0) (text, account) = cc in
      record {
        credentials = made.1;
        built = built;
        by_directory = by_directory ∙ ap (λ p. ok (p.1, made.1)) same;
        serialized = pretty ∙ ap (λ p. ok p.0) same;
      }

  restore-known :
      (raw : Text) (credentials : Credentials)
      → client.readable ≡ ok tt
      → client.from_str raw ≡ ok credentials
      → client.builder ≡ ok tt
      → restore raw ≡ map_err not_restored (client.from_credentials credentials)
  unfolding restore
  restore-known raw credentials readable parsed built = rw readable (rw parsed (rw built refl))

  account_path-same :
      (ssl_dir : Text) (provider later : TlsProviderConfig)
      → later.tls_dir ≡ provider.tls_dir
      → account_path ssl_dir later ≡ account_path ssl_dir provider
  unfolding account_path account_dir
  account_path-same ssl_dir provider later same =
      ap
        (λ dir. join_path (join_path (unwrap_or dir ssl_dir) (codes "acme")) (codes "account.json"))
        same

  load-new :
      (ssl_dir : Text) (provider : TlsProviderConfig) (files : Files)
      → client.create_dir_all ≡ ok tt
      → files (account_path ssl_dir provider) ≡ none
      → load_or_create_account ssl_dir provider files
        ≡ stored (account_path ssl_dir provider) files (create_account provider)
  unfolding load_or_create_account
  load-new ssl_dir provider files made new =
      let path = account_path ssl_dir provider in
      ap (λ dir. load_from path provider files dir (files path)) made
      ∙ ap (load_from path provider files (ok tt)) new

  load-known :
      (ssl_dir : Text) (provider : TlsProviderConfig) (files : Files) (raw : Text)
      → client.create_dir_all ≡ ok tt
      → files (account_path ssl_dir provider) ≡ some raw
      → load_or_create_account ssl_dir provider files ≡ (files, restore raw)
  unfolding load_or_create_account
  load-known ssl_dir provider files raw made known =
      let path = account_path ssl_dir provider in
      ap (λ dir. load_from path provider files dir (files path)) made
      ∙ ap (load_from path provider files (ok tt)) known

  load_from-made :
      (path : Text) (provider : TlsProviderConfig) (files : Files) (dir : Checked Text)
      (file : Option Text) (account : Account)
      → (load_from path provider files dir file).1 ≡ ok account
      → dir ≡ ok tt
  unfolding load_from
  load_from-made path provider files (ok made) file account h = refl
  load_from-made path provider files (err e) file account h = cc

  -- The account that a first start creates is the one that a later start with the same `tls_dir`
  -- uses, if the file can be read and serde reads what it wrote: it is restored from the credentials
  -- that came with the account, whatever the staging switch says by then, and the files stay as
  -- they are.
  pub load_or_create_account-keeps :
      (ssl_dir : Text) (provider later : TlsProviderConfig) (files : Files) (account : Account)
      → ((credentials : Credentials) (text : Text)
          → client.to_string_pretty credentials ≡ ok text
          → client.from_str text ≡ ok credentials)
      → client.readable ≡ ok tt
      → later.tls_dir ≡ provider.tls_dir
      → files (account_path ssl_dir provider) ≡ none
      → (load_or_create_account ssl_dir provider files).1 ≡ ok account
      → (let after = (load_or_create_account ssl_dir provider files).0 in
          (credentials : Credentials) × (client.create
              (if provider.acme_staging then client.staging_url else client.production_url)
            ≡ ok (account, credentials))
          × (load_or_create_account ssl_dir later after
              ≡ (after, map_err not_restored (client.from_credentials credentials))))
  unfolding load_or_create_account
  load_or_create_account-keeps ssl_dir provider later files account parses readable same_dir new h =
      let path = account_path ssl_dir provider in
      let made = load_from-made path provider files client.create_dir_all (files path) account h in
      let first = load-new ssl_dir provider files made new in
      let after = (load_or_create_account ssl_dir provider files).0 in
      let (text, in_file, created) =
        stored-writes path files (create_account provider) account
          (sym (ap (λ r. r.1) first) ∙ h) in
      let c = create_account-IsCreated provider text account created in
      let there : after (account_path ssl_dir later) ≡ some text =
        ap after (account_path-same ssl_dir provider later same_dir)
        ∙ (ap (λ r. r.0 path) first ∙ in_file) in
      let restored =
        restore-known text c.credentials readable (parses c.credentials text c.serialized)
          c.built in
      (
        c.credentials,
        c.by_directory,
        load-known ssl_dir later after text made there ∙ ap (λ r. (after, r)) restored,
      )
