-- ===== src/PubSub/Fitting/Steps.antt =====
-- What one call of the broker does to the view.
use quash.GoMap
use quash.GoMap.{GoMap}
use quash.Structs.{SubscriptionId}
use quash.PubSub.Fitting.{FitsView, view_after}
use quash.Broker.Slots.{AllCounted}
use quash.PubSub.Spec.{SeenAs, View}
use quash.Broker.{add_to, remove_from, create}
use quash.Messages.{
  AddSubscriberRequest, RemoveSubscriberRequest, RemoveTopicRequest, CreateTopicRequest,
}
use quash.PubSub.Seen.{
  add_to-reply, adds-SeenCounted, removes-SeenCounted, unsubscribes-SeenCounted, SeenCounted,
  create-reply, creates-SeenCounted,
}
use quash.Handler.{ok, Brokers}
use quash.Prelude.{concat, ap, refl, some, subst, ◌∙◌, ◌≡◌}
use quash.PubSub.Concurrent.{
  adding, on_add, on_remove, on_unsubscribe, removing, unsubscribing, BrokerAnswer, BrokerCall,
  creating, on_create,
}

-- A call answers as the view says, and leaves what the view shows then, every queue counted.
pub record FitsAfter (v : View) (c : BrokerCall) (a : BrokerAnswer) (b' : Brokers) : Type 0 where
  pub fits : FitsView v c a
  pub seen : SeenAs b' (view_after v c a)
  pub counted : AllCounted b'

module _ (b : Brokers) (v : View) (seen : SeenAs b v) (counted : AllCounted b) where
  -- The brokers that a call leaves, by what the view shows of them.
  pub from_seen :
      {c : BrokerCall} {a : BrokerAnswer} {b1 b' : Brokers}
      → some b1 ≡ some b'
      → FitsView v c a
      → SeenCounted b1 (view_after v c a)
      → FitsAfter v c a b'
  from_seen {c} {a} ran fits both =
      let same : _ ≡ _ = cc in
      subst (FitsAfter v c a) same
        (record { fits = fits; seen = both.seen; counted = both.counted })

  pub creating-FitsAfter :
      (req : CreateTopicRequest) (b' : Brokers)
      → some (create req.topic_name b).1 ≡ some b'
      → FitsAfter v (creating req) (on_create (create req.topic_name b).0) b'
  unfolding view_after
  creating-FitsAfter req b' ran =
      from_seen ran
        (ap on_create (create-reply req.topic_name b ∙ rw (seen.topics req.topic_name) refl))
        (creates-SeenCounted b v seen counted req)

  pub removing-FitsAfter :
      (req : RemoveTopicRequest) (b' : Brokers)
      → some (GoMap.delete b req.topic_name) ≡ some b'
      → FitsAfter v
          (removing req)
          (on_remove (ok (record { response = concat "Topic deleted: " req.topic_name })))
          b'
  unfolding view_after
  removing-FitsAfter req b' ran = from_seen ran refl (removes-SeenCounted b v seen counted req)

  pub adding-FitsAfter :
      (id : SubscriptionId) (req : AddSubscriberRequest) (b' : Brokers)
      → some (add_to id req.topic_name b).1 ≡ some b'
      → FitsAfter v (adding id req) (on_add (add_to id req.topic_name b).0) b'
  unfolding view_after
  adding-FitsAfter id req b' ran =
      from_seen ran
        (ap on_add (add_to-reply id req.topic_name b ∙ rw (seen.topics req.topic_name) refl))
        (adds-SeenCounted b v seen counted id req)

  pub unsubscribing-FitsAfter :
      (req : RemoveSubscriberRequest) (b' : Brokers)
      → some (remove_from req.subscriber_id req.topic_name b) ≡ some b'
      → FitsAfter v
          (unsubscribing req)
          (on_unsubscribe (ok (record { response = concat "Removed: " req.subscriber_id })))
          b'
  unfolding view_after
  unsubscribing-FitsAfter req b' ran =
      from_seen ran refl (unsubscribes-SeenCounted b v seen counted req)
