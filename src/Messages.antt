-- ===== src/Messages.antt =====
-- proto/quash_proto.pb.go: the messages of the service, by their fields. An int64 field is a bit
-- pattern below 2 ^ 64. The fields that the protobuf runtime keeps for itself are left out.
use quash.Prelude.{ℕ, String}

pub record SetKvRequest : Type 0 where
  pub key : String
  pub value : String
  pub time_out_duration : ℕ
  pub init_time : ℕ

pub record SetKvResponse : Type 0 where
  pub response : String

pub record GetKvRequest : Type 0 where
  pub key : String

pub record GetKvResponse : Type 0 where
  pub value : String

pub record DeleteKvRequest : Type 0 where
  pub key : String

pub record DeleteKvResponse : Type 0 where
  pub value : String

pub record PublishRequest : Type 0 where
  pub topic_name : String
  pub value : String

pub record PublishResponse : Type 0 where
  pub response : String

pub record ConsumeRequest : Type 0 where
  pub topic_name : String
  pub subscriber_id : String

pub record ConsumeResponse : Type 0 where
  pub response : String

pub record CreateTopicRequest : Type 0 where
  pub topic_name : String

pub record CreateTopicResponse : Type 0 where
  pub response : String

pub record RemoveTopicRequest : Type 0 where
  pub topic_name : String

pub record RemoveTopicResponse : Type 0 where
  pub response : String

pub record AddSubscriberRequest : Type 0 where
  pub topic_name : String

pub record AddSubscriberResponse : Type 0 where
  pub response : String
  pub subscriber_id : String

pub record RemoveSubscriberRequest : Type 0 where
  pub topic_name : String
  pub subscriber_id : String

pub record RemoveSubscriberResponse : Type 0 where
  pub response : String
