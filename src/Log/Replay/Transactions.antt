-- ===== src/Log/Replay/Transactions.antt =====
-- The transactions of the log are replayed one by one, and what is behind the last commit is not.
use mfstools.Base.{
  ◌≡◌, ◌≢◌, refl, sym, ap, ◌∙◌, Bool, true, false, List, [], ◌∷◌, ◌++◌, arith, ◌==◌, if◌then◌else◌,
}
use mfstools.Inode.{Drive}
use mfstools.Inode.Runs.Slices.{append_assoc, append-nil}
use mfstools.Zonemap.Inodes.{InodeZones}
use mfstools.Log.Loading.{LogEntry}
use mfstools.Log.Replay.{
  LogHandle, fine, transtype, lt_commit, check_entries, commit_list, commit_each, after_check,
  fssync_list,
}

-- The entries of a transaction, and the commit that ends it.
pub record Transaction : Type 0 where
  pub body : List LogEntry
  pub commit : LogEntry

unfoldable pub all_entries : List Transaction → List LogEntry
all_entries [] = []
all_entries (t ∷ ts) = (t.body ++ (t.commit ∷ [])) ++ all_entries ts

module _ (mfs_lsb arch_lsb : Bool) where
  -- No entry commits.
  unfoldable pub NoCommit : List LogEntry → Type 0
  NoCommit [] = Unit
  NoCommit (e ∷ list) = (transtype mfs_lsb arch_lsb e ≢ lt_commit) × NoCommit list

  unfoldable pub AreTransactions : List Transaction → Type 0
  AreTransactions [] = Unit
  AreTransactions (t ∷ ts) =
      NoCommit t.body × (transtype mfs_lsb arch_lsb t.commit ≡ lt_commit) × AreTransactions ts

  module _ {S : Type 0} (drive : Drive S) (zones : InodeZones) where
    -- One transaction after the other is committed, up to one that cannot be.
    unfoldable pub replay : LogHandle S → List Transaction → Bool × LogHandle S
    replay h [] = (true, h)
    replay h (t ∷ ts) =
        let (applied, h') =
          commit_list mfs_lsb arch_lsb drive zones h (t.body ++ (t.commit ∷ []))
            t.commit.logstamp in
        let rest = replay h' ts in if applied then rest else (false, h')

    commit_each_body :
        (h : LogHandle S) (pending body list : List LogEntry)
        → NoCommit body
        → commit_each mfs_lsb arch_lsb drive zones h pending (body ++ list)
          ≡ commit_each mfs_lsb arch_lsb drive zones h (pending ++ body) list
    unfolding commit_each NoCommit
    commit_each_body h pending [] list n =
        ap (λ t. commit_each mfs_lsb arch_lsb drive zones h t list) (sym (append-nil pending))
    commit_each_body h pending (e ∷ body) list n = rw (other) (
        commit_each_body h (pending ++ (e ∷ [])) body list n.1
        ∙ ap (λ t. commit_each mfs_lsb arch_lsb drive zones h t list)
            (append_assoc pending (e ∷ []) body))
      where
        other : (transtype mfs_lsb arch_lsb e == lt_commit) ≡ false
        other = ground (arith, n.0)

    commit_each_commit :
        (h : LogHandle S) (pending : List LogEntry) (e : LogEntry) (list : List LogEntry)
        → transtype mfs_lsb arch_lsb e ≡ lt_commit
        → commit_each mfs_lsb arch_lsb drive zones h pending (e ∷ list) ≡ (
            let (applied, h') =
              commit_list mfs_lsb arch_lsb drive zones h (pending ++ (e ∷ [])) e.logstamp in
            if applied then commit_each mfs_lsb arch_lsb drive zones h' [] list else (false, h'))
    unfolding commit_each
    commit_each_commit h pending e list c = rw (commits) refl
      where
        commits : (transtype mfs_lsb arch_lsb e == lt_commit) ≡ true
        commits = ground (arith, c)

    commit_each_all :
        (ts : List Transaction) (h : LogHandle S) (tail : List LogEntry)
        → AreTransactions ts
        → NoCommit tail
        → commit_each mfs_lsb arch_lsb drive zones h [] (all_entries ts ++ tail) ≡ replay h ts
    unfolding replay all_entries AreTransactions
    commit_each_all [] h tail a n =
        ap (λ t. commit_each mfs_lsb arch_lsb drive zones h [] t) (sym (append-nil tail))
        ∙ commit_each_body h [] tail [] n
        ∙ unfold commit_each in refl
    commit_each_all (t ∷ ts) h tail a n =
        ap (commit_each mfs_lsb arch_lsb drive zones h []) (
          append_assoc (t.body ++ (t.commit ∷ [])) (all_entries ts) tail
          ∙ append_assoc t.body (t.commit ∷ []) (all_entries ts ++ tail))
        ∙ commit_each_body h [] t.body (t.commit ∷ (all_entries ts ++ tail)) a.0
        ∙ commit_each_commit h t.body t.commit (all_entries ts ++ tail) a.1
        ∙ ap
            (λ (next : Bool × LogHandle S).
              if (commit_list mfs_lsb arch_lsb drive zones h (t.body ++ (t.commit ∷ []))
                t.commit.logstamp).0
              then next
              else (
                false,
                (commit_list mfs_lsb arch_lsb drive zones h (t.body ++ (t.commit ∷ []))
                    t.commit.logstamp).1,
              ))
            (commit_each_all ts
              (commit_list mfs_lsb arch_lsb drive zones h (t.body ++ (t.commit ∷ []))
                t.commit.logstamp).1
              tail a.2 n)

    -- When the check of its entries finds nothing wrong, replaying a list commits its transactions one
    -- after the other, each up to the stamp of its commit, and stops at the first that cannot be
    -- applied; entries behind the last commit are not applied.
    pub fssync_list-replay :
        (h h' : LogHandle S) (ts : List Transaction) (tail : List LogEntry)
        → AreTransactions ts
        → NoCommit tail
        → check_entries mfs_lsb arch_lsb drive zones h (all_entries ts ++ tail) ≡ (fine, h')
        → fssync_list mfs_lsb arch_lsb drive zones h (all_entries ts ++ tail) ≡ replay h' ts
    unfolding fssync_list after_check
    fssync_list-replay h h' ts tail a n e =
        ap (after_check mfs_lsb arch_lsb drive zones (all_entries ts ++ tail)) e
        ∙ commit_each_all ts h' tail a n
