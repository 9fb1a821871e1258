-- ===== src/Postgres/Chains/Lawful.antt =====
-- The chain registry in PostgreSQL, of parseon-postgres/src/chain_repo.rs, does what the port promises to the services.
use parseon.Common.{
  ℕ, ◌≡◌, refl, sym, ap, ◌∙◌, subst, inl, inr, String, Option, none, some, List, eqb, eqb_iff,
  if◌then◌else◌, Result, ok, err, Bool-cases,
}
use parseon.Common.Int.{ℤ, pos, eqb_ℤ}
use parseon.Common.Eq.{int_eq}
use parseon.Common.Stateful.{lift, Ends, Ends-bind}
use parseon.Model.{Chain}
use parseon.Errors.{Error}
use parseon.Ports.Storage.{
  NewChain, ChainUpdate, ChainRecord, Registry, IsSame, SetsAt, Creates, Gets, Updates, Deletes,
  IsLawful,
}
use parseon.Postgres.Types.{from_i64}
use parseon.Postgres.Tables.{ChainRow, Session}
use parseon.Postgres.Chains.Rows.{chain_by-id}
use parseon.Postgres.Chains.Steps.{
  Unchanged, Inserted, Kept, Updated, Deleted, create_row-Ends, get_row-Ends,
}
use parseon.Postgres.Chains.Updates.{update_row-Ends}
use parseon.Postgres.Chains.Deletions.{delete_row-Ends}
use parseon.Postgres.Chains.{
  chain_by, create_row, get_row, update_row, chain_record, postgres_chains,
}

-- The record of the row of a chain.
abbrev pub to_record : ℕ → Option ChainRow → Option ChainRecord
to_record id none = none
to_record id (some row) =
    some (record { chain = record { id = id }; rpc_url = row.rpc_url; enabled = row.enabled })

-- What the table of chains holds, as a function of the id.
unfoldable pub find_in : List ChainRow → Registry
unfolding chain_by
find_in chains id = to_record id (chain_by (pos id) chains)

abbrev pub find : Session → Registry
find s = find_in s.db.chains

abbrev same_chains : (s t : Session) → Unchanged s t → IsSame (find s) (find t)
same_chains s t h j = ap (λ chains. find_in chains j) h

find_in-eq :
    (id : ℕ) (chains : List ChainRow) → find_in chains id ≡ to_record id (chain_by (pos id) chains)
unfolding find_in
find_in-eq id chains = refl

module _ (parse_url : String → Option String) (parses : (u : String) → parse_url u ≡ some u) where
  -- A row under an id has a record.
  chain_record-of :
      (id : ℕ) (row : ChainRow)
      → row.chain_id ≡ pos id
      → chain_record parse_url row
        ≡ ok (record { chain = record { id = id }; rpc_url = row.rpc_url; enabled = row.enabled })
  unfolding chain_record from_i64
  chain_record-of id row h = rw h (rw (parses row.rpc_url) refl)

  -- A step that ends by making the record of a row that is there.
  recorded :
      (id : ℕ) (row : ChainRow) (t : Session) (P : ChainRecord → Session → Type 0)
      (R : Session → Type 0)
      → row.chain_id ≡ pos id
      → P (record { chain = record { id = id }; rpc_url = row.rpc_url; enabled = row.enabled }) t
      → Ends P R (lift (chain_record parse_url row) t)
  recorded id row t P R is h =
      subst (λ (r : Result Error ChainRecord). Ends P R (lift r t))
        (sym (chain_record-of id row is)) h

  find-set :
      (id : ℕ) (value : Option ChainRow) (s t : Session)
      → ((i : ℤ)
          → chain_by i t.db.chains ≡ (if eqb_ℤ (pos id) i then value else chain_by i s.db.chains))
      → SetsAt id (to_record id value) (find s) (find t)
  unfolding find_in
  find-set id value s t after j = elim (Bool-cases (eqb id j)) [
    | inl here ↦
        let same = (eqb_iff id j).0 here in
        ap (to_record j)
          (after (pos j) ∙ ap (λ b. if b then value else chain_by (pos j) s.db.chains) here)
        ∙ ap (λ k. to_record k value) (sym same)
        ∙ sym (ap (λ b. if b then to_record id value else find_in s.db.chains j) here)
    | inr other ↦
        ap (to_record j)
          (after (pos j) ∙ ap (λ b. if b then value else chain_by (pos j) s.db.chains) other)
        ∙ sym (ap (λ b. if b then to_record id value else find_in s.db.chains j) other)
  ]

  creates :
      (input : NewChain) (s : Session)
      → Creates find input s ((postgres_chains parse_url).create_chain input s)
  unfolding postgres_chains find_in
  creates input s = read _ (
      Ends-bind (Inserted input.chain.id input.rpc_url input.enabled s)
        (λ r t. Creates find input s (ok r, t)) (Unchanged s)
        (create_row input.chain input.rpc_url input.enabled) _ s
        (create_row-Ends input.chain input.rpc_url input.enabled s)
        (λ row t (is, absent, after).
          recorded input.chain.id row t _ _ (ap (λ (r : ChainRow). r.chain_id) is) (
            ap (to_record input.chain.id) absent,
            ap (λ (r : ChainRow). to input r) is,
            find-set input.chain.id (some row) s t after,
          )))
    where
      to : NewChain → ChainRow → ChainRecord
      to input row = record { chain = input.chain; rpc_url = row.rpc_url; enabled = row.enabled }

      read :
          (out : Result Error ChainRecord × Session)
          → Ends (λ r t. Creates find input s (ok r, t)) (Unchanged s) out
          → Creates find input s out
      read (ok r, t) h = h
      read (err e, t) h = same_chains s t h

  gets :
      (chain : Chain) (s : Session)
      → Gets find chain s ((postgres_chains parse_url).get_chain chain s)
  unfolding postgres_chains
  gets chain s = read _ (
      Ends-bind (λ row t. (chain_by (pos chain.id) s.db.chains ≡ some row) × Unchanged s t)
        (λ r t. Gets find chain s (ok r, t)) (Unchanged s) (get_row chain.id) _ s
        (get_row-Ends chain.id s)
        (λ row t (found, same).
          recorded chain.id row t _ _ (chain_by-id (pos chain.id) s.db.chains row found)
            (found_record row found, same_chains s t same)))
    where
      found_record :
          (row : ChainRow)
          → chain_by (pos chain.id) s.db.chains ≡ some row
          → find s chain.id ≡ to_record chain.id (some row)
      found_record row found = find_in-eq chain.id s.db.chains ∙ ap (to_record chain.id) found

      read :
          (out : Result Error ChainRecord × Session)
          → Ends (λ r t. Gets find chain s (ok r, t)) (Unchanged s) out
          → Gets find chain s out
      read (ok r, t) h = h
      read (err e, t) h = same_chains s t h

  updates :
      (chain : Chain) (update : ChainUpdate) (s : Session)
      → Updates find chain update s ((postgres_chains parse_url).update_chain chain update s)
  unfolding postgres_chains
  updates chain update s = read _ (
      Ends-bind (Updated chain.id update.rpc_url update.enabled s)
        (λ r t. Updates find chain update s (ok r, t)) (Kept s)
        (update_row chain.id update.rpc_url update.enabled) _ s
        (update_row-Ends chain.id update.rpc_url update.enabled s)
        (λ row t (old, found, is, after).
          recorded chain.id row t _ _
            (ap (λ (r : ChainRow). r.chain_id) is
              ∙ chain_by-id (pos chain.id) s.db.chains old found)
            (
              to old,
              find_in-eq chain.id s.db.chains ∙ ap (to_record chain.id) found,
              ap to is,
              refl,
              find-set chain.id (some row) s t after,
            )))
    where
      to : ChainRow → ChainRecord
      to row = record { chain = chain; rpc_url = row.rpc_url; enabled = row.enabled }

      read :
          (out : Result Error ChainRecord × Session)
          → Ends (λ r t. Updates find chain update s (ok r, t)) (Kept s) out
          → Updates find chain update s out
      read (ok r, t) h = h
      read (err e, t) h = λ j.
          find_in-eq j t.db.chains ∙ ap (to_record j) (h (pos j)) ∙ sym (find_in-eq j s.db.chains)

  deletes :
      (chain : Chain) (s : Session)
      → Deletes find chain s ((postgres_chains parse_url).delete_chain chain s)
  unfolding postgres_chains
  deletes chain s = read _ (delete_row-Ends chain.id s)
    where
      read :
          (out : Result Error (Unit {0}) × Session)
          → Ends (λ u t. Deleted chain.id s t) (Unchanged s) out
          → Deletes find chain s out
      read (ok u, t) h = find-set chain.id none s t h
      read (err e, t) h = same_chains s t h

  -- The registry in PostgreSQL is lawful: a chain that is created was not there and is there after, an update changes
  -- the fields that it names of a chain that is there, a deletion removes one, other chains are as they were, and an
  -- operation that fails, at whichever statement, leaves all chains as they were. It is assumed that a URL parses
  -- back from its text.
  pub postgres_chains-IsLawful : IsLawful find (postgres_chains parse_url)
  postgres_chains-IsLawful = record {
    creates = creates;
    gets = gets;
    updates = updates;
    deletes = deletes;
  }
