-- ===== src/Lib.antt =====
-- terraform-provider-awsutils: a Terraform provider with resources for AWS accounts, in Go.
--
-- The provider's resources turn the methods Create, Read, Update and Delete into calls of the AWS
-- SDK, through finders and slices of accounts; the tag library holds the tags of a resource in one
-- type whatever the service, compares an old with a new set, and makes the requests that bring the
-- service from one to the other. Plans merge the tags of a resource with the provider's defaults.
--
-- Which file models which part:
--   KeyValueTags/Data, Copy, Filter, Access, New, Config: internal/keyvaluetags/key_value_tags.go
--     (the type KeyValueTags and TagData, the methods IgnoreAws to Updated, ContainsAll, KeyValue,
--     Keys, Map, New, DefaultConfig and IgnoreConfig). A method M is the function of the same name
--     in the spelling of this library: RemoveDefaultConfig is `remove_default_config`.
--   KeyValueTags/Requests: what the functions of keyvaluetags send, as the names of the fields with their values, and
--     the conversions of service_tags_gen.go. KeyValueTags/Customizations: the functions of
--     internal/keyvaluetags/service_generation_customizations.go, in the children by their subjects.
--   KeyValueTags/Generated: update_tags_gen.go (Update), list_tags_gen.go (List) and service_tags_gen.go
--     (MapTags, SliceTags), a definition for each function, over the bodies that they share (Shapes).
--     AcmUpdateTags is `acm_update_tags`. A file is named for the first service in it.
--   KeyValueTags/Generators: the templates of internal/keyvaluetags/generators/{updatetags,listtags,
--     servicetags}/main.go as functions of the name of a service (Template), the names of the services
--     (Names, Services), and the generated functions by their Go names (the tables), which Printed
--     compares with the templates. Agrees compares one
--     with its model in UpdateTags.
--   KeyValueTags/UpdateTags: AccessanalyzerUpdateTags over a record of two calls, and iam_tags.go.
--   KeyValueTags/SetTags: inspector_tags.go and servicecatalog_tags.go.
--   KeyValueTags/BucketTags: internal/keyvaluetags/s3_tags.go, the functions on buckets, with S3Tags,
--     S3KeyValueTags of service_tags_gen.go. KeyValueTags/ControlBucketTags: s3control_tags.go.
--   KeyValueTags/Batches: Chunks, and KinesisUpdateTags of update_tags_gen.go.
--   Provider/Slices: internal/provider/structure.go and appendUniqueString of utils.go.
--   Provider/OrganizationMembers: resource_awsutils_guardduty_organization_settings.go and
--     resource_awsutils_security_hub_organization_settings.go of internal/provider; what their
--     functions share is in Calls.
--   Provider/ControlDisablement: resource_awsutils_security_hub_control_disablement.go, with
--     SecurityHubControl of internal/service/securityhub/finder/finder.go.
--   Provider/DefaultVpcDeletion: resource_awsutils_default_vpc_deletion.go, with
--     internal/service/ec2/finder/finder.go.
--   Provider/TagsDiff, TagSpecifications: SetTagsDiff and the tag specifications of
--     internal/provider/tags.go.
--   Ec2/Id: internal/service/ec2/id.go. Ec2/Filters: internal/service/ec2/filter.go and
--     internal/provider/ec2_filters.go. MutexKv: internal/mutexkv/mutexkv.go.
--   EnvVar: internal/envvar. Naming: internal/naming/naming.go.
-- The modules below these prove what the code does; Prelude holds what they share, and Examples runs
-- the code and applies the theorems at concrete inputs.
--
-- How the model reads Go:
--   * A string is the list of its bytes. A map is nil or a list of entries without order: a `range`
--     loop visits the entries from the last to the first, and since theorems speak of every list
--     they speak of every order. A pointer is an Option, an interface value the cases that the code
--     tells apart.
--   * A function that acts on the world outside has the type `Go W A`: it takes the world and returns
--     the new one, with a value, an error or a panic. A nil dereference, a failed type assertion and
--     a regular expression that does not compile are panics.
--   * The state of a resource is the record `Data` of its module: the attributes that the methods read
--     or write, and whether they changed. Where a method sets attributes, the data are part of the world.
--   * Calls of the AWS SDK, os.Getenv, uuid.New, arn.Parse, regular expressions and the unique names of
--     the Terraform SDK are parameters, as fields of records such as `TagConn` and `Ec2Conn`, over any
--     type of worlds. What the theorems need of them is in records named IsLawful, KeepsSetting and
--     Plans; they speak only of calls that return no error. Examples/Services and the other examples
--     fill them with small services.
--   * A generated function takes a client: any function from a request, with its package, operation and
--     fields, to a call. The output of a request that lists tags is a function of the selectors of the
--     code. reflect is a parameter of `service_client_type`.
--   * Threads over a MutexKV are a step relation, in which any thread may make the next access to the
--     shared memory. A thread holds one key at a time, and unlocks the key that it has locked; a mutex
--     of the runtime is the thread that has locked it.
--   * Every loop is a recursion on a list, so no function takes fuel.
--   * What AWS does is assumed as it is documented: a request to untag with values removes a tag only if the
--     value matches, DisassociateMembers of GuardDuty may leave accounts unprocessed, and the theorem on IAM
--     leaves out users and roles, whose tag keys IAM compares without case.
--
-- Not modelled: the schemas and the construction of clients (internal/provider/provider.go, config.go),
-- which are tables for libraries; the functions of autoscaling, whose tags have more fields, with the
-- branches of the templates for them; Ec2KeyValueTags at values other than slices of tags; the
-- generated functions that create or get tags; S3 object tags and internal/tfresource (retries by timers), and the thin wrappers of libraries for JSON, encryption
-- and reflection; of key_value_tags.go the methods that print tags and Hash; of
-- internal/service/ec2/id.go the identifiers that hold a hash. The text of log messages is left out.
pub mod Prelude
pub mod KeyValueTags
pub mod Ec2
pub mod Provider
pub mod EnvVar
pub mod MutexKv
pub mod Naming
mod Examples
