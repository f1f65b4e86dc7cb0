-- ===== src/Sessions/Idempotence.antt =====
-- Releasing a session is final: it ends every live attempt of the session, and a second release
-- answers yes and changes nothing.
use stolosio.Prelude.{
  ◌≡◌, refl, ap, ◌∙◌, String, some, [], Bool, true, false, Time, arith, inl, inr, Bool-cases,
  Option-cases, find, select,
}
use stolosio.Prelude.Writes.{
  find-update_row, find-test, select-update_where_nil, update_where-select_nil,
}
use stolosio.Contracts.{StolosioSession}
use stolosio.Tables.{GatewaySession, Database}
use stolosio.Sessions.Live.{is_owned}
use stolosio.Sessions.Expiry.{of_session, end_attempt}
use stolosio.Sessions.Release.{release, release_attempts, terminate, is_terminal}

-- The session is over, and none of its attempts is live.
pub record IsReleased (s : StolosioSession) (db : Database) : Type 0 where
  pub row : GatewaySession
  pub owned : find (is_owned s) db.sessions ≡ some row
  pub over : is_terminal row.state ≡ true
  pub idle : select (of_session row.id) db.attempts ≡ []

-- No live attempt is left once its session's attempts have ended.
release_attempts-idle :
    (row : GatewaySession) (failed : Bool) (reason : String) (now : Time) (db : Database)
    → select (of_session row.id) (release_attempts row failed reason now db).attempts ≡ []
unfolding release_attempts end_attempt
release_attempts-idle row true reason now db =
    select-update_where_nil (of_session row.id) _ (λ x e. ground arith) db.attempts
release_attempts-idle row false reason now db =
    select-update_where_nil (of_session row.id) _ (λ x e. ground arith) db.attempts

-- With no live attempt there is nothing to end.
release_attempts-same :
    (row : GatewaySession) (failed : Bool) (reason : String) (now : Time) (db : Database)
    → select (of_session row.id) db.attempts ≡ []
    → release_attempts row failed reason now db ≡ db
unfolding release_attempts
release_attempts-same row failed reason now db e =
    rw e (rw (update_where-select_nil (of_session row.id) _ db.attempts e))

-- `release_attempts` writes no session.
release_attempts-sessions :
    (row : GatewaySession) (failed : Bool) (reason : String) (now : Time) (db : Database)
    → (release_attempts row failed reason now db).sessions ≡ db.sessions
unfolding release_attempts
release_attempts-sessions row failed reason now db = refl

terminate-is_terminal :
    (failed : Bool) (reason : String) (now : Time) (row : GatewaySession)
    → is_terminal (terminate failed reason now row).state ≡ true
unfolding terminate
terminate-is_terminal failed reason now row = ground arith

terminate-is_owned :
    (s : StolosioSession) (failed : Bool) (reason : String) (now : Time) (row : GatewaySession)
    → is_owned s (terminate failed reason now row) ≡ is_owned s row
unfolding terminate
terminate-is_owned s failed reason now row = ground arith

pub terminate-id :
    (failed : Bool) (reason : String) (now : Time) (row : GatewaySession)
    → (terminate failed reason now row).id ≡ row.id
unfolding terminate
terminate-id failed reason now row = ground arith

-- After a release that answers yes, the session is over and no attempt of it is live.
pub release-IsReleased :
    (s : StolosioSession) (failed : Bool) (reason : String) (now : Time) (db : Database)
    → (release s failed reason now db).0 ≡ true
    → IsReleased s (release s failed reason now db).1
unfolding release
release-IsReleased s failed reason now db yes' =
    elim (Option-cases (find (is_owned s) db.sessions)) [
      | inl e ↦ absurd (ground arith)
      | inr (row, e) ↦
          rw (e, release)
            (elim (Bool-cases (is_terminal row.state)) [
              | inl over ↦ rw over (record {
                row = row;
                owned = rw release_attempts-sessions e;
                over = over;
                idle = release_attempts-idle row _ _ now db;
              })
              | inr on ↦ rw on (record {
                row = terminate failed reason now row;
                owned = rw release_attempts-sessions (
                    find-update_row (is_owned s) (terminate failed reason now) row db.sessions e (
                      terminate-is_owned s failed reason now row
                      ∙ find-test (is_owned s) db.sessions e));
                over = terminate-is_terminal failed reason now row;
                idle = rw terminate-id (release_attempts-idle row _ _ now db);
              })
            ])
    ]

-- Once a session is released, a release answers yes and changes nothing.
release-again :
    (s : StolosioSession) (failed : Bool) (reason : String) (now : Time) (db : Database)
    → IsReleased s db
    → release s failed reason now db ≡ (true, db)
unfolding release
release-again s failed reason now db h =
    rw (h.owned, release)
      (rw (h.over)
        (ap (λ (d : Database). (true, d)) (release_attempts-same h.row _ _ now db h.idle)))

-- A release that answers yes makes every later release of that session, whatever it says, answer
-- yes and change nothing.
pub release-release :
    (s : StolosioSession) (failed failed' : Bool) (reason reason' : String) (now later : Time)
    (db : Database)
    → (release s failed reason now db).0 ≡ true
    → release s failed' reason' later (release s failed reason now db).1
      ≡ (true, (release s failed reason now db).1)
release-release s failed failed' reason reason' now later db yes' =
    release-again s failed' reason' later _ (release-IsReleased s failed reason now db yes')
